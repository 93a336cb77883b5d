-- ===== src/Session/Keys.antt =====
-- Which requests a session accepts, and what stops it.
use Prim.Native.String.{String}
use rtmp_vcam.Prelude.{
  ℕ, ◌%◌, ◌^◌, subst, ◌≡◌, refl, sym, ap, ◌⊎◌, inl, inr, false, Bool-cases, Option, none, some,
  List, [], ◌∷◌, Result, ok, err, arith,
}
use rtmp_vcam.Flv.{
  VideoPacket, sequence_header, nalu_data, end_of_sequence, unsupported, parse_video_data,
}
use rtmp_vcam.Io.{IoError, invalid_data, Io, and_then, ◌>>◌}
use rtmp_vcam.Session.{
  Event, connection_requested, publish_stream_requested, video_data_received,
  stream_metadata_changed, publish_stream_finished, audio_data_received, unnamed_event,
  release_stream_requested, SessionResult, outbound_response, raised_event, unhandleable_message,
  Rtmp, Tcp, VideoSink, World, write_all, on_stream, accept, send_results, grant, refuses, deliver,
  handle_event, handle_results, handle_answer, handle_input,
}

module _ (rtmp : Rtmp) where
  open rtmp use {ServerSession, accept_request}

  -- The second session comes from the first by accepting requests that are allowed, and in no other
  -- way.
  pub data Accepts (IsAllowed : ℕ → Type 0) : ServerSession → ServerSession → Type 0 where
    unchanged : {s : ServerSession} → Accepts IsAllowed s s
    accepted :
        {s t : ServerSession} (request_id : ℕ)
        → IsAllowed request_id
        → Accepts IsAllowed (accept_request request_id s).1 t
        → Accepts IsAllowed s t

-- The event asks for the request, and if it is to publish, the key is the one that is wanted.
abbrev pub AsksFor : Option String → Event → ℕ → Type 0
AsksFor allowed_key (connection_requested i) request_id = i ≡ request_id
AsksFor allowed_key (release_stream_requested i) request_id = i ≡ request_id
AsksFor allowed_key (publish_stream_requested i key) request_id =
    (i ≡ request_id) × (refuses allowed_key key ≡ false)
AsksFor allowed_key (video_data_received bytes timestamp) request_id = ⊥
AsksFor allowed_key stream_metadata_changed request_id = ⊥
AsksFor allowed_key publish_stream_finished request_id = ⊥
AsksFor allowed_key audio_data_received request_id = ⊥
AsksFor allowed_key unnamed_event request_id = ⊥

-- One of the results does.
abbrev pub IsGranted : Option String → List SessionResult → ℕ → Type 0
IsGranted allowed_key [] request_id = ⊥
IsGranted allowed_key (raised_event event ∷ results) request_id =
    AsksFor allowed_key event request_id ⊎ IsGranted allowed_key results request_id
IsGranted allowed_key (outbound_response bytes ∷ results) request_id =
    IsGranted allowed_key results request_id
IsGranted allowed_key (unhandleable_message type_id ∷ results) request_id =
    IsGranted allowed_key results request_id

module _ (rtmp : Rtmp) (tcp : Tcp) (video : VideoSink) where
  abbrev W : Type 0
  W = World rtmp tcp video

  grant-session :
      (i : ℕ) (w : W) → (grant rtmp tcp video i w).1.session ≡ (rtmp.accept_request i w.session).1
  unfolding grant accept send_results
  grant-session i w = ground arith

  pub grant-sink : (i : ℕ) (w : W) → (grant rtmp tcp video i w).1.sink ≡ w.sink
  unfolding grant accept send_results
  grant-sink i w = ground arith

  deliver-session :
      (p : Option VideoPacket) (w : W) → (deliver rtmp tcp video p w).1.session ≡ w.session
  unfolding deliver
  deliver-session none w = refl
  deliver-session (some (sequence_header c)) w = refl
  deliver-session (some (nalu_data b t)) w = refl
  deliver-session (some end_of_sequence) w = refl
  deliver-session (some unsupported) w = refl

module _ (rtmp : Rtmp) where
  open rtmp use {ServerSession}

  Accepts-map :
      {P Q : ℕ → Type 0} {s t : ServerSession}
      → ((i : ℕ) → P i → Q i)
      → Accepts rtmp P s t
      → Accepts rtmp Q s t
  Accepts-map f unchanged = unchanged
  Accepts-map f (accepted i p a) = accepted i (f i p) (Accepts-map f a)

  Accepts-trans :
      {P : ℕ → Type 0} {s t u : ServerSession}
      → Accepts rtmp P s t
      → Accepts rtmp P t u
      → Accepts rtmp P s u
  Accepts-trans unchanged b = b
  Accepts-trans (accepted i p a) b = accepted i p (Accepts-trans a b)

  Accepts-of_eq : {P : ℕ → Type 0} {s t : ServerSession} → s ≡ t → Accepts rtmp P s t
  Accepts-of_eq {P} {s} e = subst (Accepts rtmp P s) e unchanged

module _ (rtmp : Rtmp) (tcp : Tcp) (video : VideoSink) (P : ℕ → Type 0) where
  abbrev Keeps : Io (World rtmp tcp video) (Unit {0}) → Type 0
  Keeps m = (w : World rtmp tcp video) → Accepts rtmp P w.session (m w).1.session

  Keeps-and_then :
      (r : Result IoError (Unit {0})) (k : Io (World rtmp tcp video) (Unit {0}))
      (w : World rtmp tcp video)
      → Keeps k
      → Accepts rtmp P w.session (and_then r (λ _. k) w).1.session
  Keeps-and_then (ok u) k w h = h w
  Keeps-and_then (err e) k w h = unchanged

  Keeps-bind : (m k : Io (World rtmp tcp video) (Unit {0})) → Keeps m → Keeps k → Keeps (m >> k)
  Keeps-bind m k hm hk w = Accepts-trans rtmp (hm w) (Keeps-and_then (m w).0 k (m w).1 hk)

  Keeps-on_stream : (m : Io tcp.TcpStream (Unit {0})) → Keeps (on_stream rtmp tcp video m)
  Keeps-on_stream m w = unchanged

  Keeps-grant : (i : ℕ) → P i → Keeps (grant rtmp tcp video i)
  Keeps-grant i p w =
      Accepts-trans rtmp (accepted i p unchanged)
        (Accepts-of_eq rtmp (sym (grant-session rtmp tcp video i w)))

module _ (rtmp : Rtmp) (tcp : Tcp) (video : VideoSink) (allowed_key : Option String) where
  Keeps-event :
      (event : Event)
      → Keeps rtmp tcp video
          (AsksFor allowed_key event)
          (handle_event rtmp tcp video allowed_key event)
  unfolding handle_event
  Keeps-event (connection_requested i) w = Keeps-grant rtmp tcp video _ i refl w
  Keeps-event (publish_stream_requested i key) w = elim (Bool-cases (refuses allowed_key key)) [
    | inl refused ↦ rw refused unchanged
    | inr fits ↦ rw fits (Keeps-grant rtmp tcp video _ i (refl, fits) w)
  ]
  Keeps-event (video_data_received bytes timestamp) w =
      Accepts-of_eq rtmp
        (sym (deliver-session rtmp tcp video (parse_video_data bytes (timestamp % 2 ^ 32)) w))
  Keeps-event stream_metadata_changed w = unchanged
  Keeps-event publish_stream_finished w = unchanged
  Keeps-event audio_data_received w = unchanged
  Keeps-event unnamed_event w = unchanged
  Keeps-event (release_stream_requested i) w = Keeps-grant rtmp tcp video _ i refl w

  Keeps-map :
      (P Q : ℕ → Type 0) (m : Io (World rtmp tcp video) (Unit {0}))
      → ((i : ℕ) → P i → Q i)
      → Keeps rtmp tcp video P m
      → Keeps rtmp tcp video Q m
  Keeps-map P Q m f h w = Accepts-map rtmp f (h w)

  -- Whatever results come in, whatever the sockets do and wherever the loop stops: the server
  -- session changes only by accepting requests that one of the events asks for, and a request to
  -- publish only if its key is the wanted one or none is wanted.
  pub handle_results-Accepts :
      (results : List SessionResult) (w : World rtmp tcp video)
      → Accepts rtmp
          (IsGranted allowed_key results)
          w.session
          (handle_results rtmp tcp video allowed_key results w).1.session
  unfolding handle_results
  handle_results-Accepts [] w = unchanged
  handle_results-Accepts (outbound_response bytes ∷ results) w =
      Keeps-bind rtmp tcp video (IsGranted allowed_key results)
        (on_stream rtmp tcp video (write_all tcp bytes))
        (handle_results rtmp tcp video allowed_key results)
        (Keeps-on_stream rtmp tcp video _ (write_all tcp bytes)) (handle_results-Accepts results) w
  handle_results-Accepts (raised_event event ∷ results) w =
      Keeps-bind rtmp tcp video (IsGranted allowed_key (raised_event event ∷ results))
        (handle_event rtmp tcp video allowed_key event)
        (handle_results rtmp tcp video allowed_key results)
        (Keeps-map (AsksFor allowed_key event) _ (handle_event rtmp tcp video allowed_key event)
          (λ i p. inl p) (Keeps-event event))
        (λ v. Accepts-map rtmp (λ i p. inr p) (handle_results-Accepts results v)) w
  handle_results-Accepts (unhandleable_message type_id ∷ results) w =
      handle_results-Accepts results w

  -- The same of a whole call of `handle_input`, from the session that has taken the input.
  pub handle_input-Accepts :
      (input : List ℕ) (results : List SessionResult) (w : World rtmp tcp video)
      → (rtmp.take_input input w.session).0 ≡ some results
      → Accepts rtmp
          (IsGranted allowed_key results)
          (rtmp.take_input input w.session).1
          (handle_input rtmp tcp video allowed_key input w).1.session
  unfolding handle_input
  handle_input-Accepts input results w e =
      let w' : World rtmp tcp video = record w { session = (rtmp.take_input input w.session).1 } in
      subst
        (λ a.
          Accepts rtmp (IsGranted allowed_key results) w'.session
            (handle_answer rtmp tcp video allowed_key a w').1.session)
        (sym e) (handle_results-Accepts results w')

  -- An input that rml_rtmp refuses ends the call.
  pub handle_input_refused :
      (input : List ℕ) (w : World rtmp tcp video)
      → (rtmp.take_input input w.session).0 ≡ none
      → handle_input rtmp tcp video allowed_key input w
        ≡ (err invalid_data, record w { session = (rtmp.take_input input w.session).1 })
  unfolding handle_input handle_answer
  handle_input_refused input w e =
      ap
        (λ a.
          handle_answer rtmp tcp video allowed_key a
            (record w { session = (rtmp.take_input input w.session).1 }))
        e
