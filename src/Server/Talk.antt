-- ===== src/Server/Talk.antt =====
-- server.rs and session.rs: a whole conversation which nothing fails.
use Prim.Native.String.{String}
use rtmp_vcam.Prelude.{ℕ, ◌≡◌, refl, ap, ◌∙◌, sym, Option, none, some, List, [], ◌∷◌, ◌++◌, ok}
use rtmp_vcam.Session.{SessionResult, Rtmp, Tcp, VideoSink, World, handle_input, handle_answer}
use rtmp_vcam.Session.Feed.{IsWorking, AreFine}
use rtmp_vcam.Session.Calls.{SinkCall, apply, apply-append, result_calls, feed-apply}
use rtmp_vcam.Session.Exact.{session_after, after_results, handle_results_lem}
use rtmp_vcam.Server.{Read, read_loop}

-- What the peer sends between two reads, which is never nothing.
abbrev pub Chunk : Type 0
Chunk = ℕ × List ℕ

abbrev pub reads : List Chunk → List Read → List Read
reads [] rest = rest
reads ((x, xs) ∷ chunks) rest = some (x ∷ xs) ∷ reads chunks rest

module _ (rtmp : Rtmp) (allowed_key : Option String) where
  open rtmp use {ServerSession, take_input}

  abbrev pub results_of : Option (List SessionResult) → List SessionResult
  results_of none = []
  results_of (some results) = results

  abbrev pub IsAnswer : Option (List SessionResult) → Type 0
  IsAnswer none = ⊥
  IsAnswer (some results) = AreFine allowed_key results

  -- rml_rtmp takes each input, with no wrong key and no video data but bytes among its results.
  abbrev pub IsTalk : List Chunk → ServerSession → Type 0
  IsTalk [] session = Unit
  IsTalk ((x, xs) ∷ chunks) session =
      IsAnswer (take_input (x ∷ xs) session).0
      × IsTalk chunks (
          session_after rtmp (results_of (take_input (x ∷ xs) session).0)
            (take_input (x ∷ xs) session).1)

  -- The calls of the sink, in order.
  abbrev pub talk_calls : List Chunk → ServerSession → List SinkCall
  talk_calls [] session = []
  talk_calls ((x, xs) ∷ chunks) session =
      result_calls (results_of (take_input (x ∷ xs) session).0)
      ++ talk_calls chunks (
          session_after rtmp (results_of (take_input (x ∷ xs) session).0)
            (take_input (x ∷ xs) session).1)

module _ (rtmp : Rtmp) (tcp : Tcp) (video : VideoSink) (allowed_key : Option String)
    (works : IsWorking rtmp tcp) where
  abbrev W : Type 0
  W = World rtmp tcp video

  abbrev pub after_input : List ℕ → W → W
  after_input input w =
      after_results rtmp tcp video allowed_key works
        (results_of rtmp allowed_key (rtmp.take_input input w.session).0)
        (record w { session = (rtmp.take_input input w.session).1 })

  abbrev pub after_talk : List Chunk → W → W
  after_talk [] w = w
  after_talk ((x, xs) ∷ chunks) w = after_talk chunks (after_input (x ∷ xs) w)

  answer_lem :
      (answer : Option (List SessionResult)) (w : W)
      → IsAnswer rtmp allowed_key answer
      → handle_answer rtmp tcp video allowed_key answer w ≡ (
        ok tt,
        after_results rtmp tcp video allowed_key works (results_of rtmp allowed_key answer) w,
      )
  unfolding handle_answer
  answer_lem none w f = absurd f
  answer_lem (some results) w f = handle_results_lem rtmp tcp video allowed_key works results w f

  pub input_lem :
      (input : List ℕ) (w : W)
      → IsAnswer rtmp allowed_key (rtmp.take_input input w.session).0
      → handle_input rtmp tcp video allowed_key input w ≡ (ok tt, after_input input w)
  unfolding handle_input
  input_lem input w f =
      let (answer, session) = rtmp.take_input input w.session in
      answer_lem answer (record w { session = session }) f

  -- With working sockets, an rml_rtmp that takes the inputs and accepts the requests, no wrong key
  -- and video data of bytes, the loop handles any number of inputs, leaves exactly the world of
  -- their calls in order, of the socket, of rml_rtmp and of the sink, and goes on with the reads
  -- that follow.
  pub read_loop-talk :
      (chunks : List Chunk) (rest : List Read) (w : W)
      → IsTalk rtmp allowed_key chunks w.session
      → read_loop rtmp tcp video allowed_key (reads chunks rest) w
        ≡ read_loop rtmp tcp video allowed_key rest (after_talk chunks w)
  unfolding read_loop
  read_loop-talk [] rest w f = refl
  read_loop-talk ((x, xs) ∷ chunks) rest w (first, f) =
      rw (input_lem (x ∷ xs) w first) (read_loop-talk chunks rest (after_input (x ∷ xs) w) f)

  pub after_talk-sink :
      (chunks : List Chunk) (w : W)
      → (after_talk chunks w).sink
        ≡ apply video (talk_calls rtmp allowed_key chunks w.session) w.sink
  after_talk-sink [] w = refl
  after_talk-sink ((x, xs) ∷ chunks) w =
      let results = results_of rtmp allowed_key (rtmp.take_input (x ∷ xs) w.session).0 in
      let w' = after_input (x ∷ xs) w in
      after_talk-sink chunks w'
      ∙ ap (apply video (talk_calls rtmp allowed_key chunks w'.session))
          (feed-apply video results w.sink)
      ∙ sym (
          apply-append video (result_calls results) (talk_calls rtmp allowed_key chunks w'.session)
            w.sink)
