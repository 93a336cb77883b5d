-- ===== src/Io.antt =====
-- Fallible code over a state: what a method has changed stays changed when it returns an error.
use rtmp_vcam.Prelude.{Result, ok, err}

abbrev pub Act : Type 0 → Type 0 → Type 0 → Type 0
Act E S A = S → Result E A × S

module _ {E S A B : Type 0} where
  abbrev pub and_then : Result E A → (A → Act E S B) → Act E S B
  and_then (ok a) f s = f a s
  and_then (err e) f s = (err e, s)

  infixl 5 ◌>>=◌ ◌>>◌
  abbrev pub ◌>>=◌ : Act E S A → (A → Act E S B) → Act E S B
  ◌>>=◌ m f s = let (r, s') = m s in and_then r f s'

  abbrev pub ◌>>◌ : Act E S A → Act E S B → Act E S B
  m >> n = m >>= λ _. n

module _ {E S A : Type 0} where
  abbrev pub pure : A → Act E S A
  pure a s = (ok a, s)

  abbrev pub fail : E → Act E S A
  fail e s = (err e, s)

-- The `io::ErrorKind`s that the program makes, one for whatever the sockets report, and a panic of
-- the task.
pub data IoError : Type 0 where
  permission_denied invalid_data unexpected_eof other transport panicked : IoError

-- `io::Result`
abbrev pub Io : Type 0 → Type 0 → Type 0
Io S A = Act IoError S A
