-- ===== src/Frame/Memory.antt =====
-- Little-endian numbers in the mapping.
use native.Mathlib.Nat.{pow-suc}
use rtmp_vcam.Prelude.{ℕ, zero, suc, ◌+◌, ◌/◌, ◌%◌, ◌^◌, ◌≤◌, ◌<◌, ◌≡◌, ◌⊎◌, refl, arith}
use rtmp_vcam.Frame.{Bytes, load_le, store_byte, store_le}

-- A store leaves the bytes outside its range.
pub store_le_out :
    (n at v : ℕ) (shm : Bytes) (a : ℕ) → (a < at) ⊎ (at + n ≤ a) → store_le n at v shm a ≡ shm a
store_le_out zero at v shm a h = refl
store_le_out (suc n) at v shm a h = ground (arith, store_le_out n (at + 1) (v / 256) shm a)

-- A load depends on the bytes of its range alone.
pub load_le_same :
    (n at : ℕ) (shm shm' : Bytes)
    → ((a : ℕ) → at ≤ a → a < at + n → shm a ≡ shm' a)
    → load_le n at shm ≡ load_le n at shm'
load_le_same zero at shm shm' h = refl
load_le_same (suc n) at shm shm' h = omega (
  arith,
  h at (omega arith) (omega arith),
  load_le_same n (at + 1) shm shm' (λ a p q. h a (omega arith) (omega arith)),
)

-- What is stored is loaded, modulo the width.
pub load_le-store_le :
    (n at v : ℕ) (shm : Bytes) → v < 256 ^ n → load_le n at (store_le n at v shm) ≡ v
load_le-store_le zero at v shm h = omega arith
load_le-store_le (suc n) at v shm h = omega (
  arith,
  pow-suc 256 n,
  head_byte,
  load_le-store_le n (at + 1) (v / 256) shm (omega (arith, pow-suc 256 n)),
  load_le_same n (at + 1) (store_byte at (v % 256) rest) rest (λ a p q. ground arith),
)
  where
    rest : Bytes
    rest = store_le n (at + 1) (v / 256) shm

    head_byte : store_byte at (v % 256) rest at ≡ v % 256
    head_byte = ground arith
