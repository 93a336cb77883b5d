-- ===== src/Camera/Sends.antt =====
-- Stream.swift: what a firing of the timer sends.
use rtmp_vcam.Prelude.{
  ℕ, ◌+◌, ◌≡◌, refl, ap, ap₂, ◌∙◌, subst, arith, true, ◌==◌, ◌⊎◌, inl, inr, Option, none, some, ◌∷◌,
  Result, ok, err,
}
use rtmp_vcam.Frame.{Bytes, Fault, load_le}
use rtmp_vcam.Reader.{Picture, read_latest_frame}
use rtmp_vcam.Reader.Shows.{IsPicture, Delivers}
use rtmp_vcam.Reader.Any.{Creates, IsRead, IsVisible, stored, read_latest_frame-IsRead}
use rtmp_vcam.Camera.{
  Platform, Source, send_pixel_buffer, black_frame, deliver_black_frame, deliver_or_black,
  read_from, connect, deliver_frame,
}
use rtmp_vcam.Camera.Black.{IsBlack, fill_black-IsBlack}

-- CoreVideo makes buffers as documented, or none.
abbrev pub Makes : Platform → Type 0
Makes os = (t : os.State) → Creates (λ w h. os.pixel_buffer w h t)

-- It always makes one, and CoreMedia makes the descriptions and samples.
pub record IsWorking (os : Platform) : Type 0 where
  pub picture : ℕ → ℕ → os.State → Picture
  pub made : (w h : ℕ) (t : os.State) → os.pixel_buffer w h t ≡ some (picture w h t)
  pub has_format : (p : Picture) (t : os.State) → os.has_format p t ≡ true
  pub has_sample : (p : Picture) (t : os.State) → os.has_sample p t ≡ true

-- All that sending leaves alone.
pub record SameShm {os : Platform} (s s' : Source os) : Type 0 where
  pub entries : s'.entries ≡ s.entries
  pub shm_pointer : s'.shm_pointer ≡ s.shm_pointer
  pub shm_fd : s'.shm_fd ≡ s.shm_fd
  pub timer : s'.timer ≡ s.timer
  pub is_streaming : s'.is_streaming ≡ s.is_streaming

module _ (os : Platform) where
  send-SameShm : (p : Picture) (s : Source os) → SameShm s (send_pixel_buffer os p s)
  unfolding send_pixel_buffer
  send-SameShm p s = ground arith

  black-SameShm :
      (o : Option Picture) (s : Source os)
      → ((p : Picture) → o ≡ some p → IsPicture 1920 1080 p)
      → (s' : Source os) × (black_frame os o s ≡ ok s') × SameShm s s'
  unfolding black_frame
  black-SameShm none s h = (s, refl, ground arith)
  black-SameShm (some p) s h =
      let (p', e, black) = fill_black-IsBlack 1920 1080 p (h p refl) in
      (send_pixel_buffer os p' s, rw e refl, send-SameShm p' s)

  deliver_or_black-SameShm :
      (o : Option Picture) (s : Source os)
      → Makes os
      → (s' : Source os) × (deliver_or_black os o s ≡ ok s') × SameShm s s'
  unfolding deliver_or_black deliver_black_frame
  deliver_or_black-SameShm none s good =
      black-SameShm (os.pixel_buffer 1920 1080 s.platform) s ((good s.platform).made 1920 1080)
  deliver_or_black-SameShm (some p) s good = (send_pixel_buffer os p s, refl, send-SameShm p s)

  IsRead-ok :
      (create : ℕ → ℕ → Option Picture) (m : Bytes) (r : Result Fault (Option Picture))
      → IsRead create m r
      → (o : Option Picture) × (r ≡ ok o)
  IsRead-ok create m (ok none) h = (none, refl)
  IsRead-ok create m (ok (some p)) h = (some p, refl)
  IsRead-ok create m (err e) h = absurd h

  read-ok :
      (o : Option ℕ) (s : Source os)
      → Makes os
      → (found : Option Picture) × (read_from os o s ≡ ok found)
  unfolding read_from
  read-ok none s good = (none, refl)
  read-ok (some p) s good =
      IsRead-ok (λ w h. os.pixel_buffer w h s.platform) (os.contents p s.platform) _
        (read_latest_frame-IsRead (λ w h. os.pixel_buffer w h s.platform) (os.contents p s.platform)
          (good s.platform))

  -- An attached source connects where it has to, and then only sends.
  pub deliver_frame-SameShm :
      (s : Source os)
      → Makes os
      → s.attached ≡ true
      → (s' : Source os) × (deliver_frame os s ≡ ok s') × SameShm (connect os s.shm_pointer s) s'
  unfolding deliver_frame
  deliver_frame-SameShm s good attached =
      let s1 = connect os s.shm_pointer s in
      let (found, e) = read-ok s1.shm_pointer s1 good in
      let (s', e', same) = deliver_or_black-SameShm found s1 good in
      (s', simp (attached, e) e', same)

-- What is sent for a mapping at the pointer: the frame that it shows, or black.
abbrev pub Expected : (os : Platform) → Option ℕ → os.State → Picture → Type 0
Expected os none t p = IsBlack 1920 1080 p
Expected os (some q) t p =
    (IsVisible (os.contents q t) × Delivers (stored (os.contents q t)) p)
    ⊎ ((¬ IsVisible (os.contents q t)) × IsBlack 1920 1080 p)

-- One more frame was sent, marked if it is the first since the start.
pub record SendsOne {os : Platform} (s s' : Source os) (p : Picture) : Type 0 where
  pub sent : s'.sent ≡ record { picture = p; discontinuity = s.sequence_number == 0 } ∷ s.sent
  pub sequence_number : s'.sequence_number ≡ s.sequence_number + 1

module _ (os : Platform) (good : Makes os) (works : IsWorking os) where
  first_number : (n : ℕ) → (n + 1 == 1) ≡ (n == 0)
  first_number n = ground arith

  pub send-SendsOne : (p : Picture) (s : Source os) → SendsOne s (send_pixel_buffer os p s) p
  unfolding send_pixel_buffer
  send-SendsOne p s =
      simp (works.has_format p s.platform, works.has_sample p s.platform)
        (record {
          sent =
              ap (λ b. record { picture = p; discontinuity = b } ∷ s.sent)
                (first_number s.sequence_number);
          sequence_number = refl;
        })

  connect_sent :
      (o : Option ℕ) (s : Source os)
      → ((connect os o s).sent ≡ s.sent)
        × ((connect os o s).sequence_number ≡ s.sequence_number)
        × ((connect os o s).attached ≡ s.attached)
  unfolding connect
  connect_sent none s = ground arith
  connect_sent (some q) s = (refl, refl, refl)

  -- A picture of the frame, where one was read, or else a black one, is sent.
  Shown : Option Picture → Picture → Type 0
  Shown none p = IsBlack 1920 1080 p
  Shown (some p') p = p' ≡ p

  deliver_or_black-SendsOne :
      (found : Option Picture) (s : Source os)
      → (s' : Source os) × (p : Picture) × (deliver_or_black os found s ≡ ok s')
        × SendsOne s s' p
        × Shown found p
  unfolding deliver_or_black deliver_black_frame black_frame Shown
  deliver_or_black-SendsOne none s =
      let q = works.picture 1920 1080 s.platform in
      let e = works.made 1920 1080 s.platform in
      let (p, e', black) = fill_black-IsBlack 1920 1080 q ((good s.platform).made 1920 1080 q e) in
      (send_pixel_buffer os p s, p, rw (e, black_frame, e') refl, send-SendsOne p s, black)
  deliver_or_black-SendsOne (some p) s =
      (send_pixel_buffer os p s, p, refl, send-SendsOne p s, refl)

  IsVisible-absurd :
      (m : Bytes) (t : os.State) → IsRead (λ w h. os.pixel_buffer w h t) m (ok none) → ¬ IsVisible m
  IsVisible-absurd m t (inl e) (written, shown) = omega (arith, e, written)
  IsVisible-absurd m t (inr (inl e)) (written, shown) = cc
  IsVisible-absurd m t (inr (inr e)) (written, shown) =
      cc (works.made (load_le 4 8 m) (load_le 4 12 m) t)

  Shown-Expected :
      (q : ℕ) (t : os.State) (found : Option Picture) (p : Picture)
      → IsRead (λ w h. os.pixel_buffer w h t) (os.contents q t) (ok found)
      → Shown found p
      → Expected os (some q) t p
  unfolding Shown
  Shown-Expected q t none p h black = inr (IsVisible-absurd (os.contents q t) t h, black)
  Shown-Expected q t (some p') p (visible, delivers) e =
      inl (visible, subst (Delivers (stored (os.contents q t))) e delivers)

  read-Expected :
      (o : Option ℕ) (s : Source os)
      → (found : Option Picture) × (read_from os o s ≡ ok found)
        × ((p : Picture) → Shown found p → Expected os o s.platform p)
  unfolding read_from Shown
  read-Expected none s = (none, refl, λ p black. black)
  read-Expected (some q) s =
      let create = λ (w : ℕ) (h : ℕ). os.pixel_buffer w h s.platform in
      let m = os.contents q s.platform in
      let read = read_latest_frame-IsRead create m (good s.platform) in
      let (found, e) = IsRead-ok os create m (read_latest_frame create m) read in
      (found, e, λ p. Shown-Expected q s.platform found p (subst (IsRead create m) e read))

  -- If CoreVideo and CoreMedia work as documented, a firing of the timer of an attached source
  -- sends exactly one frame, marked as a discontinuity exactly if it is the first since the start:
  -- pixel by pixel the frame that the mapping shows, or, where there is no mapping or it shows
  -- none, a black one of 1920 x 1080. A source without a mapping tries to map the file first.
  pub deliver_frame-SendsOne :
      (s : Source os)
      → s.attached ≡ true
      → (s' : Source os) × (p : Picture) × (deliver_frame os s ≡ ok s')
        × SendsOne s s' p
        × Expected os
            (connect os s.shm_pointer s).shm_pointer
            (connect os s.shm_pointer s).platform
            p
  unfolding deliver_frame
  deliver_frame-SendsOne s attached =
      let s1 = connect os s.shm_pointer s in
      let (kept, number, _) = connect_sent s.shm_pointer s in
      let (found, e, expected) = read-Expected s1.shm_pointer s1 in
      let (s', p, e', one, shown) = deliver_or_black-SendsOne found s1 in
      (
        s',
        p,
        simp (attached, e) e',
        record {
          sent =
              one.sent
              ∙ ap₂ (λ (n : ℕ) l. record { picture = p; discontinuity = n == 0 } ∷ l) number kept;
          sequence_number = one.sequence_number ∙ ap (λ n. n + 1) number;
        },
        expected p shown,
      )
