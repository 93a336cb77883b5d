-- ===== src/Args/Settings.antt =====
-- main.rs: every command line is the spelling of some settings, and parse_args carries them out.
use Prim.Native.String.{String}
use rtmp_vcam.Prelude.{
  ℕ, ◌≡◌, refl, ◌∙◌, Bool, true, false, Option, none, some, List, [], ◌∷◌, if◌then◌else◌, All,
}
use rtmp_vcam.Args.{
  Options, or_else, port_option, key_option, verbose_option, help_option, unknown, classify,
  last_arg, read_arg, read_args, parse_args,
}

-- What a user asks for, and whether in the short form. A word is no option.
pub data Setting : Type 0 where
  port_setting key_setting : Bool → String → Setting
  verbose_setting help_setting : Bool → Setting
  word : String → Setting

-- What may stand at the end: nothing, or an option without its value.
pub data Tail : Type 0 where
  nothing : Tail
  bare_port bare_key : Bool → Tail

abbrev pub spell : Bool → String → String → String
spell short s l = if short then s else l

abbrev pub tail_args : Tail → List String
tail_args nothing = []
tail_args (bare_port short) = spell short "-p" "--port" ∷ []
tail_args (bare_key short) = spell short "-k" "--stream-key" ∷ []

abbrev pub render : List Setting → Tail → List String
render [] end = tail_args end
render (port_setting short v ∷ ss) end = spell short "-p" "--port" ∷ v ∷ render ss end
render (key_setting short v ∷ ss) end = spell short "-k" "--stream-key" ∷ v ∷ render ss end
render (verbose_setting short ∷ ss) end = spell short "-v" "--verbose" ∷ render ss end
render (help_setting short ∷ ss) end = spell short "-h" "--help" ∷ render ss end
render (word a ∷ ss) end = a ∷ render ss end

-- No word is spelled like an option.
abbrev pub IsWord : Setting → Type 0
IsWord (word a) = classify a ≡ unknown
IsWord (port_setting short v) = Unit
IsWord (key_setting short v) = Unit
IsWord (verbose_setting short) = Unit
IsWord (help_setting short) = Unit

classify-port : (short : Bool) → classify (spell short "-p" "--port") ≡ port_option
unfolding classify
classify-port true = refl
classify-port false = refl

classify-key : (short : Bool) → classify (spell short "-k" "--stream-key") ≡ key_option
unfolding classify
classify-key true = refl
classify-key false = refl

classify-verbose : (short : Bool) → classify (spell short "-v" "--verbose") ≡ verbose_option
unfolding classify
classify-verbose true = refl
classify-verbose false = refl

classify-help : (short : Bool) → classify (spell short "-h" "--help") ≡ help_option
unfolding classify
classify-help true = refl
classify-help false = refl

module _ (parse : String → Option ℕ) where
  -- The settings one after another: a later one replaces an earlier one, a port that cannot be read is
  -- 1935, and help ends the program.
  abbrev pub carry_out : List Setting → Options → Option Options
  carry_out [] o = some o
  carry_out (port_setting short v ∷ ss) o =
      carry_out ss (record o { port = or_else (parse v) 1935 })
  carry_out (key_setting short v ∷ ss) o = carry_out ss (record o { stream_key = some v })
  carry_out (verbose_setting short ∷ ss) o = carry_out ss (record o { verbose = true })
  carry_out (help_setting short ∷ ss) o = none
  carry_out (word a ∷ ss) o = carry_out ss o

  -- One argument without a value.
  verbose_first :
      (a : String) (args : List String) (o : Options)
      → classify a ≡ verbose_option
      → read_args parse (a ∷ args) o ≡ read_args parse args (record o { verbose = true })
  unfolding read_args read_arg last_arg
  verbose_first a [] o e = rw e refl
  verbose_first a (v ∷ args) o e = rw e refl

  help_first :
      (a : String) (args : List String) (o : Options)
      → classify a ≡ help_option
      → read_args parse (a ∷ args) o ≡ none
  unfolding read_args read_arg last_arg
  help_first a [] o e = rw e refl
  help_first a (v ∷ args) o e = rw e refl

  word_first :
      (a : String) (args : List String) (o : Options)
      → classify a ≡ unknown
      → read_args parse (a ∷ args) o ≡ read_args parse args o
  unfolding read_args read_arg last_arg
  word_first a [] o e = rw e refl
  word_first a (v ∷ args) o e = rw e refl

  tail_last : (end : Tail) (o : Options) → read_args parse (tail_args end) o ≡ some o
  unfolding read_args last_arg
  tail_last nothing o = refl
  tail_last (bare_port short) o = rw (classify-port short) refl
  tail_last (bare_key short) o = rw (classify-key short) refl

  render-carry_out :
      (ss : List Setting) (end : Tail) (o : Options)
      → All IsWord ss
      → read_args parse (render ss end) o ≡ carry_out ss o
  unfolding read_args read_arg
  render-carry_out [] end o h = tail_last end o
  render-carry_out (port_setting short v ∷ ss) end o (w, h) =
      rw (classify-port short)
        (render-carry_out ss end (record o { port = or_else (parse v) 1935 }) h)
  render-carry_out (key_setting short v ∷ ss) end o (w, h) =
      rw (classify-key short) (render-carry_out ss end (record o { stream_key = some v }) h)
  render-carry_out (verbose_setting short ∷ ss) end o (w, h) =
      verbose_first _ (render ss end) o (classify-verbose short)
      ∙ render-carry_out ss end (record o { verbose = true }) h
  render-carry_out (help_setting short ∷ ss) end o (w, h) =
      help_first _ (render ss end) o (classify-help short)
  render-carry_out (word a ∷ ss) end o (w, h) =
      word_first a (render ss end) o w ∙ render-carry_out ss end o h

  -- For any settings, each in its short or its long form, with words that are no options between them
  -- and an option that lacks its value at the end or not: parse_args carries out the settings in
  -- order, from port 1935, no key and no debug log. The last setting of each kind counts, a port that
  -- cannot be read is 1935, and help ends the program.
  pub parse_args-render :
      (ss : List Setting) (end : Tail)
      → All IsWord ss
      → parse_args parse (render ss end)
        ≡ carry_out ss (record { port = 1935; verbose = false; stream_key = none })
  unfolding parse_args
  parse_args-render ss end h = render-carry_out ss end _ h
