-- ===== src/Prelude/Bytes.antt =====
-- Bytes, big-endian 16-bit numbers, and the masks that the FLV parser applies to a byte.
use Prim.Native.Nat.{ℕ, zero, suc, ◌+◌, ◌*◌, ◌/◌, ◌%◌, ◌<◌, bit_and}
use mathlib.Core.Path.{◌≡◌, refl}
use mathlib.Core.Bool.{true}
use mathlib.Core.List.{List, [], ◌∷◌, ◌++◌}
use rtmp_vcam.Prelude.Tests.{◌==◌, ==_iff, every_below, every_below_lem}
use rtmp_vcam.Prelude.Lists.{All, take, drop}

-- Every element is a `u8`.
abbrev pub AreBytes : List ℕ → Type 0
AreBytes = All (λ b. b < 256)

-- `u16::from_be_bytes([hi, lo])`
abbrev pub from_be_bytes : ℕ → ℕ → ℕ
from_be_bytes hi lo = hi * 256 + lo

-- `u16::to_be_bytes`, for a number below 65536.
abbrev pub to_be_bytes : ℕ → List ℕ
to_be_bytes n = n / 256 ∷ n % 256 ∷ []

mask_4_table : every_below 256 (λ x. bit_and x 0x0F == x % 16) ≡ true
unfolding every_below
mask_4_table = refl

mask_2_table : every_below 256 (λ x. bit_and x 0x03 == x % 4) ≡ true
unfolding every_below
mask_2_table = refl

mask_5_table : every_below 256 (λ x. bit_and x 0x1F == x % 32) ≡ true
unfolding every_below
mask_5_table = refl

pub bit_and_mask_4 : (x : ℕ) → x < 256 → bit_and x 0x0F ≡ x % 16
bit_and_mask_4 x h = (==_iff _ _).0 (every_below_lem 256 _ x mask_4_table h)

pub bit_and_mask_2 : (x : ℕ) → x < 256 → bit_and x 0x03 ≡ x % 4
bit_and_mask_2 x h = (==_iff _ _).0 (every_below_lem 256 _ x mask_2_table h)

pub bit_and_mask_5 : (x : ℕ) → x < 256 → bit_and x 0x1F ≡ x % 32
bit_and_mask_5 x h = (==_iff _ _).0 (every_below_lem 256 _ x mask_5_table h)

pub AreBytes-append : (xs ys : List ℕ) → AreBytes xs → AreBytes ys → AreBytes (xs ++ ys)
AreBytes-append [] ys p q = q
AreBytes-append (x ∷ xs) ys p q = (p.0, AreBytes-append xs ys p.1 q)

pub AreBytes-append_right : (xs ys : List ℕ) → AreBytes (xs ++ ys) → AreBytes ys
AreBytes-append_right [] ys p = p
AreBytes-append_right (x ∷ xs) ys p = AreBytes-append_right xs ys p.1

pub AreBytes-append_left : (xs ys : List ℕ) → AreBytes (xs ++ ys) → AreBytes xs
AreBytes-append_left [] ys p = tt
AreBytes-append_left (x ∷ xs) ys p = (p.0, AreBytes-append_left xs ys p.1)

pub AreBytes-drop : (n : ℕ) (xs : List ℕ) → AreBytes xs → AreBytes (drop n xs)
AreBytes-drop zero xs p = p
AreBytes-drop (suc n) [] p = tt
AreBytes-drop (suc n) (x ∷ xs) p = AreBytes-drop n xs p.1

pub AreBytes-take : (n : ℕ) (xs : List ℕ) → AreBytes xs → AreBytes (take n xs)
AreBytes-take zero xs p = tt
AreBytes-take (suc n) [] p = tt
AreBytes-take (suc n) (x ∷ xs) p = (p.0, AreBytes-take n xs p.1)
