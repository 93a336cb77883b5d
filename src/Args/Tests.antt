-- ===== src/Args/Tests.antt =====
-- Command lines, and the theorem on settings there.
use Prim.Native.String.{String}
use text.Mathlib.Text.{◌==◌ as str_eq}
use rtmp_vcam.Prelude.{
  ℕ, Option, if◌then◌else◌, All, ◌≡◌, refl, true, false, none, some, List, [], ◌∷◌,
}
use rtmp_vcam.Args.{classify, last_arg, read_arg, read_args, parse_args}
use rtmp_vcam.Args.Settings.{
  Setting, port_setting, key_setting, verbose_setting, word, bare_key, render, IsWord, carry_out,
  parse_args-render,
}

-- A stand-in for the reading of a port: it knows one text.
abbrev parse : String → Option ℕ
parse v = if str_eq v "8080" then some 8080 else none

abbrev keyed : List String
keyed = "-p" ∷ "8080" ∷ "-v" ∷ "--stream-key" ∷ "--help" ∷ []

-- What stands behind `--stream-key` is its value, even if it looks like an option.
keyed-read :
    parse_args parse keyed
    ≡ some (record { port = 8080; verbose = true; stream_key = some "--help" })
unfolding parse_args read_args read_arg last_arg classify
keyed-read = refl

-- A port that cannot be read is the default, also behind another.
unread :
    parse_args parse ("-p" ∷ "8080" ∷ "-p" ∷ "65536" ∷ [])
    ≡ some (record { port = 1935; verbose = false; stream_key = none })
unfolding parse_args read_args read_arg last_arg classify
unread = refl

helped : parse_args parse ("-k" ∷ "a" ∷ "-h" ∷ []) ≡ none
unfolding parse_args read_args read_arg last_arg classify
helped = refl

abbrev settings : List Setting
settings =
    port_setting true "8080"
    ∷ word "noise"
    ∷ key_setting false "--help"
    ∷ verbose_setting false
    ∷ port_setting false "none"
    ∷ []

settings-All : All IsWord settings
unfolding classify
settings-All = (tt, (refl, (tt, (tt, (tt, tt)))))

parse_args-render_example :
    parse_args parse (render settings (bare_key true))
    ≡ carry_out parse settings (record { port = 1935; verbose = false; stream_key = none })
parse_args-render_example = parse_args-render parse settings (bare_key true) settings-All
