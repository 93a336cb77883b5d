-- ===== src/Ring.antt =====
-- crates/video-pipeline/src/surface_pool.rs: the ring of surface ids.
-- An `IOSurfaceRef` is a number and null is 0. CoreFoundation is not part of the program: the ring
-- keeps the list of the calls of CFRetain and CFRelease that it has made, newest first.
-- `lock().unwrap()` cannot fail: no code that holds the lock panics, since `idx` is below RING_SIZE.
mod Own
mod Handles
mod Window
mod Threads
mod Race
mod Count
mod Tests
mod UnitTests
use rtmp_vcam.Prelude.{
  ℕ, zero, suc, ◌+◌, ◌-◌, ◌%◌, ◌^◌, Option, none, some, List, [], ◌∷◌, ◌==◌, if◌then◌else◌, get_or,
  set, replicate,
}

pub data CfCall : Type 0 where
  retain release : ℕ → CfCall

-- SurfaceRingInner
pub record Ring : Type 0 where
  pub write_index : ℕ
  pub surface_ids : List ℕ
  pub timestamps : List ℕ
  pub retained_surfaces : List ℕ
  pub calls : List CfCall

abbrev pub ring_size : ℕ
ring_size = 8

pub new : Ring
new = record {
  write_index = 0;
  surface_ids = replicate ring_size 0;
  timestamps = replicate ring_size 0;
  retained_surfaces = replicate ring_size 0;
  calls = [];
}

-- `if !p.is_null() { CFRetain(p) }`
abbrev pub retain_unless_null : ℕ → List CfCall → List CfCall
retain_unless_null p calls = if p == 0 then calls else retain p ∷ calls

-- `if !p.is_null() { CFRelease(p) }`
abbrev pub release_unless_null : ℕ → List CfCall → List CfCall
release_unless_null p calls = if p == 0 then calls else release p ∷ calls

pub push : ℕ → ℕ → ℕ → Ring → Ring
push surface_id timestamp_ms surface r =
    let idx = r.write_index % ring_size in
    let old = get_or r.retained_surfaces idx 0 in
    record {
      write_index = (r.write_index + 1) % 2 ^ 64;
      surface_ids = set r.surface_ids idx surface_id;
      timestamps = set r.timestamps idx timestamp_ms;
      retained_surfaces = set r.retained_surfaces idx surface;
      calls = release_unless_null old (retain_unless_null surface r.calls);
    }

pub latest : Ring → Option (ℕ × ℕ)
latest r =
    if r.write_index == 0
    then none
    else let idx = (r.write_index - 1) % ring_size in
      let surface_id = get_or r.surface_ids idx 0 in
      let timestamp = get_or r.timestamps idx 0 in
      if surface_id == 0 then none else some (surface_id, timestamp)

pub write_count : Ring → ℕ
write_count r = r.write_index

-- The loop of `drop` over the retained surfaces: the calls that it makes, and the slots it leaves.
pub release_all : List ℕ → List CfCall → List CfCall
release_all [] calls = calls
release_all (p ∷ ps) calls = release_all ps (release_unless_null p calls)

pub clear_all : List ℕ → List ℕ
clear_all [] = []
clear_all (p ∷ ps) = (if p == 0 then p else 0) ∷ clear_all ps

-- `Drop for SurfaceRingInner`
pub drop_inner : Ring → Ring
unfolding release_all clear_all
drop_inner r = record r {
  retained_surfaces = clear_all r.retained_surfaces;
  calls = release_all r.retained_surfaces r.calls;
}

-- The `Arc` behind `SurfaceRing`: the ring and the number of handles to it.
pub record Shared : Type 0 where
  pub inner : Ring
  pub handles : ℕ

pub clone_ref : Shared → Shared
clone_ref s = record s { handles = s.handles + 1 }

-- A handle goes out of scope; with the last one the inner ring is dropped.
pub drop_handle : Shared → Shared
drop_handle s = record {
  inner = if s.handles == 1 then drop_inner s.inner else s.inner;
  handles = s.handles - 1;
}
