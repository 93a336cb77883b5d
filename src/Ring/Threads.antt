-- ===== src/Ring/Threads.antt =====
-- surface_pool.rs: `push` by several threads at once, one shared access at a time.
-- The mutex makes the exchange of the retained surface one step; the release of the old one is a
-- step of its own, so that the calls of other threads may come between. No other step is locked.
use rtmp_vcam.Prelude.{ℕ, zero, suc, ◌+◌, ◌%◌, ◌^◌, ◌≡◌, List, ◌∷◌, ◌++◌, get_or, set, replicate}
use rtmp_vcam.Ring.{Ring, ring_size, new, retain_unless_null, release_unless_null}

-- Where a thread stands in `push`, with the local variables that are live there.
pub data Pc : Type 0 where
  idle : Pc
  at_retain at_exchange : (idx surface_id timestamp_ms surface : ℕ) → Pc
  at_release : (idx surface_id timestamp_ms old : ℕ) → Pc
  at_id : (idx surface_id timestamp_ms : ℕ) → Pc
  at_timestamp : (idx timestamp_ms : ℕ) → Pc
  at_increment : Pc

-- A call of `push` begins with the load of the write index.
abbrev pub enter : ℕ → ℕ → ℕ → Ring → Pc
enter surface_id timestamp_ms surface r =
    at_retain (r.write_index % ring_size) surface_id timestamp_ms surface

-- The next access.
unfoldable pub advance : Pc → Ring → Pc × Ring
advance idle r = (idle, r)
advance (at_retain idx i t p) r =
    (at_exchange idx i t p, record r { calls = retain_unless_null p r.calls })
advance (at_exchange idx i t p) r = (
  at_release idx i t (get_or r.retained_surfaces idx 0),
  record r { retained_surfaces = set r.retained_surfaces idx p },
)
advance (at_release idx i t old) r =
    (at_id idx i t, record r { calls = release_unless_null old r.calls })
advance (at_id idx i t) r = (at_timestamp idx t, record r { surface_ids = set r.surface_ids idx i })
advance (at_timestamp idx t) r = (at_increment, record r { timestamps = set r.timestamps idx t })
advance at_increment r = (idle, record r { write_index = (r.write_index + 1) % 2 ^ 64 })

-- A thread alone makes its next `n` accesses.
unfoldable pub advances : ℕ → Pc → Ring → Pc × Ring
advances zero pc r = (pc, r)
advances (suc n) pc r = let (pc', r') = advance pc r in advances n pc' r'

pub record Threads : Type 0 where
  pub ring : Ring
  pub pcs : List Pc

-- One thread, behind `before` and in front of `behind` in the list, makes a step.
pub data Step (s t : Threads) : Type 0 where
  enters :
      (before behind : List Pc) (surface_id timestamp_ms surface : ℕ)
      → s.pcs ≡ before ++ idle ∷ behind
      → t ≡ record s { pcs = before ++ enter surface_id timestamp_ms surface s.ring ∷ behind }
      → Step s t
  moves :
      (before behind : List Pc) (pc : Pc)
      → s.pcs ≡ before ++ pc ∷ behind
      → t ≡ record { ring = (advance pc s.ring).1; pcs = before ++ (advance pc s.ring).0 ∷ behind }
      → Step s t

abbrev pub start : ℕ → Threads
start n = record { ring = new; pcs = replicate n idle }

pub data Reach (n : ℕ) : Threads → Type 0 where
  here : Reach n (start n)
  next : {s t : Threads} → Reach n s → Step s t → Reach n t
