-- ===== src/Args.antt =====
-- crates/rtmp-vcam-app/src/main.rs: parse_args.
-- The arguments behind the program's name are a list; `none` is the exit of `--help`. How a text is
-- read as a `u16` is Rust's standard library, the parameter `parse`.
mod Settings
mod Tests
use text.Mathlib.Text.{◌==◌ as str_eq}
use Prim.Native.String.{String}
use rtmp_vcam.Prelude.{
  ℕ, ◌+◌, ◌-◌, ◌*◌, Bool, true, false, Option, none, some, List, [], ◌∷◌, ◌||◌, ◌==◌, ltb,
  if◌then◌else◌,
}

pub record Options : Type 0 where
  pub port : ℕ
  pub verbose : Bool
  pub stream_key : Option String

abbrev pub or_else : Option ℕ → ℕ → ℕ
or_else none n = n
or_else (some k) n = k

pub data Arg : Type 0 where
  port_option key_option verbose_option help_option unknown : Arg

-- The arms of the `match`.
unfoldable pub classify : String → Arg
classify a =
    if str_eq a "--port" || str_eq a "-p"
    then port_option
    else if str_eq a "--stream-key" || str_eq a "-k"
    then key_option
    else if str_eq a "--verbose" || str_eq a "-v"
    then verbose_option
    else if str_eq a "--help" || str_eq a "-h"
    then help_option
    else unknown

-- The last argument: an option that takes a value is ignored.
unfoldable pub last_arg : Arg → Options → Option Options
last_arg port_option o = some o
last_arg key_option o = some o
last_arg verbose_option o = some (record o { verbose = true })
last_arg help_option o = none
last_arg unknown o = some o

module _ (parse : String → Option ℕ) where
  -- An argument before another, `v`: the loop goes on behind `v`, or at it.
  unfoldable pub read_arg :
      Arg
      → String
      → Options
      → (Options → Option Options)
      → (Options → Option Options)
      → Option Options
  read_arg port_option v o behind at = behind (record o { port = or_else (parse v) 1935 })
  read_arg key_option v o behind at = behind (record o { stream_key = some v })
  read_arg verbose_option v o behind at = at (record o { verbose = true })
  read_arg help_option v o behind at = none
  read_arg unknown v o behind at = at o

  unfoldable pub read_args : List String → Options → Option Options
  read_args [] o = some o
  read_args (a ∷ []) o = last_arg (classify a) o
  read_args (a ∷ v ∷ rest) o =
      read_arg (classify a) v o (λ o'. read_args rest o') (λ o'. read_args (v ∷ rest) o')

  unfoldable pub parse_args : List String → Option Options
  parse_args args = read_args args (record { port = 1935; verbose = false; stream_key = none })
