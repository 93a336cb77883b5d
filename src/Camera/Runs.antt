-- ===== src/Camera/Runs.antt =====
-- Stream.swift: the camera over any events, one at a time.
use rtmp_vcam.Prelude.{
  ℕ, ◌≡◌, refl, ap, ◌∙◌, sym, subst, arith, Bool-cases, true, false, inl, inr, Option, none, some,
  List, [], ◌∷◌, ok,
}
use rtmp_vcam.Ipc.{is_negative}
use rtmp_vcam.Camera.{
  Platform, Source, Event, attach, start, stop, tick, new, open_shared_memory, start_stream,
  stop_streaming, connect, deliver_frame, on_event, run_events,
}
use rtmp_vcam.Camera.Connected.{
  Holds, IsClosed, Agree, at_pointer, negative_fd, open-Holds, close-IsClosed,
}
use rtmp_vcam.Camera.Sends.{Makes, SameShm, deliver_frame-SameShm}

-- What the source holds is accounted for, the timer runs while it streams, and a source that does
-- not stream holds no mapping.
pub record IsConnected (os : Platform) (n p : ℕ) (s : Source os) : Type 0 where
  pub holds : Holds os n p s
  pub clocked : s.timer ≡ s.is_streaming
  pub idle : s.is_streaming ≡ false → s.shm_pointer ≡ none

module _ (os : Platform) (n p : ℕ) where
  new-IsConnected : (t : os.State) → IsConnected os n p (new os t)
  unfolding new is_negative
  new-IsConnected t = record {
    holds = record { fds = omega arith; mappings = omega arith; agree = refl };
    clocked = refl;
    idle = λ e. refl;
  }

  open-clock :
      (s : Source os)
      → ((open_shared_memory os s).timer ≡ s.timer)
        × ((open_shared_memory os s).is_streaming ≡ s.is_streaming)
  unfolding open_shared_memory
  open-clock s = ground arith

  start-IsConnected :
      (s : Source os) → IsConnected os n p s → IsConnected os n p (start_stream os s)
  unfolding start_stream
  start-IsConnected s c = elim (Bool-cases s.is_streaming) [
    | inl on ↦ subst (IsConnected os n p) (sym (simp on refl)) c
    | inr off ↦
        let s0 : Source os = record s {
          is_streaming = true;
          sequence_number = 0;
          last_write_index = 0;
        } in
        let h =
          open-Holds os n p s0 (c.idle off)
            (record { fds = c.holds.fds; mappings = c.holds.mappings; agree = c.holds.agree }) in
        let (timer, streaming) = open-clock s0 in
        simp off (record {
          holds = record { fds = h.fds; mappings = h.mappings; agree = h.agree };
          clocked = sym streaming;
          idle = λ e. absurd (cc);
        })
  ]

  stop-clock :
      (s : Source os)
      → ((stop_streaming os s).timer ≡ false) × ((stop_streaming os s).is_streaming ≡ false)
  unfolding stop_streaming
  stop-clock s = ground arith

  stop-IsClosed : (s : Source os) → Holds os n p s → IsClosed os n p (stop_streaming os s)
  unfolding stop_streaming
  stop-IsClosed s h =
      close-IsClosed os n p (record s { is_streaming = false; timer = false })
        (record { fds = h.fds; mappings = h.mappings; agree = h.agree })

  stop-IsConnected :
      (s : Source os) → IsConnected os n p s → IsConnected os n p (stop_streaming os s)
  stop-IsConnected s c =
      let closed = stop-IsClosed s c.holds in
      let s' = stop_streaming os s in
      let (timer, streaming) = stop-clock s in
      record {
        holds = record {
          fds = omega (arith, closed.fds, negative_fd os n p s'.shm_fd closed.negative);
          mappings = omega (arith, closed.mappings, ap (at_pointer p) closed.pointer);
          agree = subst (λ o. Agree o s'.shm_fd) (sym closed.pointer) closed.negative;
        };
        clocked = timer ∙ sym streaming;
        idle = λ e. closed.pointer;
      }

  -- A source that streams stays connected when it connects.
  connect-IsConnected :
      (o : Option ℕ) (s : Source os)
      → s.shm_pointer ≡ o
      → s.is_streaming ≡ true
      → IsConnected os n p s
      → IsConnected os n p (connect os o s)
  unfolding connect
  connect-IsConnected none s e on c =
      let (timer, streaming) = open-clock s in
      record {
        holds = open-Holds os n p s e c.holds;
        clocked = timer ∙ c.clocked ∙ sym streaming;
        idle = λ off. absurd (cc);
      }
  connect-IsConnected (some q) s e on c = c

  SameShm-IsConnected :
      (s s' : Source os) → SameShm s s' → IsConnected os n p s → IsConnected os n p s'
  SameShm-IsConnected s s' same c = record {
    holds = record {
      fds = rw (same.entries, same.shm_fd) c.holds.fds;
      mappings = rw (same.entries, same.shm_pointer) c.holds.mappings;
      agree = rw (same.shm_pointer, same.shm_fd) c.holds.agree;
    };
    clocked = same.timer ∙ c.clocked ∙ sym same.is_streaming;
    idle = λ off. same.shm_pointer ∙ c.idle (sym same.is_streaming ∙ off);
  }

  deliver_frame-IsConnected :
      (s : Source os)
      → Makes os
      → s.is_streaming ≡ true
      → IsConnected os n p s
      → (s' : Source os) × (deliver_frame os s ≡ ok s') × IsConnected os n p s'
  unfolding deliver_frame
  deliver_frame-IsConnected s good on c = elim (Bool-cases s.attached) [
    | inl attached ↦
        let (s', e, same) = deliver_frame-SameShm os s good attached in
        (
          s',
          e,
          SameShm-IsConnected (connect os s.shm_pointer s) s' same
              (connect-IsConnected s.shm_pointer s refl on c),
        )
    | inr alone ↦ (s, simp alone refl, c)
  ]

  tick_fires : (s : Source os) → s.timer ≡ true → on_event os tick s ≡ deliver_frame os s
  unfolding on_event
  tick_fires s fires = simp fires refl

  on_event-IsConnected :
      (e : Event os) (s : Source os)
      → Makes os
      → IsConnected os n p s
      → (s' : Source os) × (on_event os e s ≡ ok s') × IsConnected os n p s'
  unfolding on_event
  on_event-IsConnected attach s good c = (
    record s { attached = true },
    refl,
    record {
      holds = record { fds = c.holds.fds; mappings = c.holds.mappings; agree = c.holds.agree };
      clocked = c.clocked;
      idle = c.idle;
    },
  )
  on_event-IsConnected start s good c = (start_stream os s, refl, start-IsConnected s c)
  on_event-IsConnected stop s good c = (stop_streaming os s, refl, stop-IsConnected s c)
  on_event-IsConnected tick s good c = elim (Bool-cases s.timer) [
    | inl fires ↦
        let (s', e, c') = deliver_frame-IsConnected s good (sym c.clocked ∙ fires) c in
        (s', tick_fires s fires ∙ e, c')
    | inr quiet ↦ (s, simp quiet refl, c)
  ]

  run_all :
      (events : List (Event os)) (s : Source os)
      → Makes os
      → IsConnected os n p s
      → (s' : Source os) × (run_events os events s ≡ ok s') × IsConnected os n p s'
  unfolding run_events
  run_all [] s good c = (s, refl, c)
  run_all (e ∷ events) s good c =
      let (s1, first, c1) = on_event-IsConnected e s good c in
      let (s2, rest, c2) = run_all events s1 good c1 in (s2, rw first rest, c2)

  -- If CoreVideo makes buffers as documented or none, and the handler of the timer and the calls of
  -- the system run one at a time: over any sequence of attaching, starts, stops and firings of the
  -- timer, a new source never accesses memory out of bounds, whatever the mapped file holds; each
  -- descriptor and each mapping that it has gained and not given back is the one that it holds; its
  -- timer runs exactly while it streams; and it holds no mapping while it does not stream.
  pub run_events-IsConnected :
      (events : List (Event os)) (t : os.State)
      → Makes os
      → (s' : Source os) × (run_events os events (new os t) ≡ ok s') × IsConnected os n p s'
  run_events-IsConnected events t good = run_all events (new os t) good (new-IsConnected t)
