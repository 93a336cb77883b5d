-- ===== src/Server/Full.antt =====
-- server.rs: a whole connection which nothing fails, from its first read to its end.
use Prim.Native.String.{String}
use rtmp_vcam.Prelude.{ℕ, ◌≡◌, refl, ap, ◌∙◌, sym, false, Option, some, List, [], ◌∷◌, ◌++◌, ok}
use rtmp_vcam.Io.{and_then}
use rtmp_vcam.Handshake
use rtmp_vcam.Handshake.{
  Rml, HandshakeResult, in_progress, finished, failed, HandshakeState, answer, process,
}
use rtmp_vcam.Session
use rtmp_vcam.Session.{SessionResult, Rtmp, Tcp, VideoSink, World, write_all, flush}
use rtmp_vcam.Session.Feed.{IsWorking}
use rtmp_vcam.Session.Exact.{
  Call, sends, syncs, replay, replay-append, responses, write_results_lem,
}
use rtmp_vcam.Server.{
  Read, closed, lift, respond, proceed, shake, read_loop, serve, with_session, after_shake,
  handle_connection,
}
use rtmp_vcam.Server.Talk.{Chunk, reads, IsTalk, after_input, after_talk, input_lem, read_loop-talk}

-- The bytes behind the handshake are an input before the others, if there are any.
abbrev pub behind : List ℕ → List Chunk → List Chunk
behind [] chunks = chunks
behind (x ∷ xs) chunks = (x, xs) ∷ chunks

-- A response is written and flushed, if there is one.
abbrev pub respond_calls : List ℕ → List Call
respond_calls [] = []
respond_calls (x ∷ xs) = sends (x ∷ xs) ∷ syncs ∷ []

abbrev pub response_of : HandshakeResult → List ℕ
response_of (in_progress response) = response
response_of (finished response remaining) = response
response_of failed = []

-- The handshake goes on, or it is done with no input left.
abbrev pub Answered : HandshakeResult → List Chunk → List ℕ → Type 0 → Type 0
Answered (in_progress response) chunks remaining Rest = Rest
Answered (finished response remaining') chunks remaining Rest =
    (chunks ≡ []) × (remaining' ≡ remaining)
Answered failed chunks remaining Rest = ⊥

module _ (rml : Rml) where
  -- The last of the inputs completes the handshake, and leaves the remaining bytes.
  abbrev pub IsShake : List Chunk → List ℕ → rml.Handshake → Type 0
  IsShake [] remaining h = ⊥
  IsShake ((x, xs) ∷ chunks) remaining h =
      Answered (rml.process_bytes (x ∷ xs) h).0 chunks remaining
        (IsShake chunks remaining (rml.process_bytes (x ∷ xs) h).1)

  abbrev pub shake_calls : List Chunk → rml.Handshake → List Call
  shake_calls [] h = []
  shake_calls ((x, xs) ∷ chunks) h =
      respond_calls (response_of (rml.process_bytes (x ∷ xs) h).0)
      ++ shake_calls chunks (rml.process_bytes (x ∷ xs) h).1

  abbrev fresh : rml.Handshake → HandshakeState rml
  fresh h = record { inner = h; completed = false }

module _ (rml : Rml) (rtmp : Rtmp) (tcp : Tcp) (works : IsWorking rtmp tcp) where
  respond_lem :
      (response : List ℕ) (s : tcp.TcpStream)
      → respond rml tcp response s ≡ (ok tt, replay tcp (respond_calls response) s)
  unfolding respond write_all flush
  respond_lem [] s = refl
  respond_lem (x ∷ xs) s = rw (works.sends, works.syncs) refl

  -- One answer of the handshake.
  answer_lem :
      (r : HandshakeResult) (h : rml.Handshake) (chunks : List Chunk) (remaining : List ℕ)
      (rest : List Read) (s : tcp.TcpStream)
      → Answered r chunks remaining (IsShake rml chunks remaining h)
      → ((s' : tcp.TcpStream)
          → IsShake rml chunks remaining h
          → shake rml tcp (fresh rml h) (reads chunks rest) s'
            ≡ (ok (some (remaining, rest)), replay tcp (shake_calls rml chunks h) s'))
      → let (o, h') = answer rml r (fresh rml h) in
        and_then
          (lift {S = tcp.TcpStream} o s).0
          (λ (response, m). λ u.
            and_then
              (respond rml tcp response u).0
              (λ _. proceed rml tcp m (reads chunks rest) (shake rml tcp h' (reads chunks rest)))
              (respond rml tcp response u).1)
          s
        ≡ (
          ok (some (remaining, rest)),
          replay tcp (respond_calls (response_of r) ++ shake_calls rml chunks h) s,
        )
  unfolding answer proceed
  answer_lem (in_progress response) h chunks remaining rest s f again =
      rw (respond_lem response s) (
        again (replay tcp (respond_calls response) s) f
        ∙ ap (λ u. (ok (some (remaining, rest)), u))
            (sym (replay-append tcp (respond_calls response) (shake_calls rml chunks h) s)))
  answer_lem (finished response remaining') h chunks remaining rest s (e, e') again =
      rw (respond_lem response s, e, e')
        (ap (λ u. (ok (some (remaining, rest)), u))
          (sym (replay-append tcp (respond_calls response) [] s)))
  answer_lem failed h chunks remaining rest s f again = absurd f

  shake_lem :
      (chunks : List Chunk) (remaining : List ℕ) (rest : List Read) (h : rml.Handshake)
      (s : tcp.TcpStream)
      → IsShake rml chunks remaining h
      → shake rml tcp (fresh rml h) (reads chunks rest) s
        ≡ (ok (some (remaining, rest)), replay tcp (shake_calls rml chunks h) s)
  unfolding shake process
  shake_lem [] remaining rest h s f = absurd f
  shake_lem ((x, xs) ∷ chunks) remaining rest h s f =
      let (r, h') = rml.process_bytes (x ∷ xs) h in
      answer_lem r h' chunks remaining rest s f (λ s' f'. shake_lem chunks remaining rest h' s' f')

  new_lem :
      (video : VideoSink) (allowed_key : Option String) (session : rtmp.ServerSession)
      (initial : List SessionResult) (s : tcp.TcpStream)
      → rtmp.create ≡ some (session, initial)
      → Session.new rtmp tcp s ≡ (ok session, replay tcp (responses initial) s)
  unfolding Session.new
  new_lem video allowed_key session initial s e =
      rw (e, write_results_lem rtmp tcp video allowed_key works initial s) refl

module _ (rml : Rml) (rtmp : Rtmp) (tcp : Tcp) (video : VideoSink) (allowed_key : Option String)
    (works : IsWorking rtmp tcp) where
  abbrev W : Type 0
  W = World rtmp tcp video

  serve_lem :
      (remaining : List ℕ) (chunks : List Chunk) (rest : List Read) (w : W)
      → IsTalk rtmp allowed_key (behind remaining chunks) w.session
      → serve rtmp tcp video allowed_key remaining (reads chunks rest) w
        ≡ read_loop rtmp tcp video allowed_key rest
            (after_talk rtmp tcp video allowed_key works (behind remaining chunks) w)
  unfolding serve
  serve_lem [] chunks rest w f = read_loop-talk rtmp tcp video allowed_key works chunks rest w f
  serve_lem (x ∷ xs) chunks rest w (first, f) =
      rw (input_lem rtmp tcp video allowed_key works (x ∷ xs) w first) (
        read_loop-talk rtmp tcp video allowed_key works chunks rest
          (after_input rtmp tcp video allowed_key works (x ∷ xs) w) f)

  -- The session begins behind the handshake, when the results of its making have been written.
  abbrev pub begun :
      List Chunk → rtmp.ServerSession → List SessionResult → tcp.TcpStream → video.Sink → W
  begun hands session initial s sink = record {
    session = session;
    stream = replay tcp (shake_calls rml hands rml.new_server ++ responses initial) s;
    sink = sink;
  }

  -- With working sockets, an rml_rtmp that completes the handshake, makes a session, takes the
  -- inputs and accepts the requests, no wrong key and video data of bytes, a connection whose peer
  -- then ends it is closed without an error, and has made exactly these calls, in order: those of
  -- the handshake's responses, those of the session's first results, and those of the results of
  -- each input, where bytes that came behind the handshake are the first.
  pub handle_connection-talk :
      (hands chunks : List Chunk) (remaining : List ℕ) (more : List Read)
      (session : rtmp.ServerSession) (initial : List SessionResult) (s : tcp.TcpStream)
      (sink : video.Sink)
      → IsShake rml hands remaining rml.new_server
      → rtmp.create ≡ some (session, initial)
      → IsTalk rtmp allowed_key (behind remaining chunks) session
      → let w =
          after_talk rtmp tcp video allowed_key works
            (behind remaining chunks)
            (begun hands session initial s sink) in
        handle_connection rml rtmp tcp video allowed_key
          (reads hands (reads chunks (some [] ∷ more)))
          s
          sink
        ≡ record { result = ok closed; stream = w.stream; sink = w.sink }
  unfolding handle_connection Handshake.new after_shake with_session read_loop
  handle_connection-talk hands chunks remaining more session initial s sink shaken made talk =
      let calls = shake_calls rml hands rml.new_server in
      let w0 = begun hands session initial s sink in
      rw
        (
          shake_lem rml rtmp tcp works hands remaining (reads chunks (some [] ∷ more))
              rml.new_server s shaken,
          new_lem rml rtmp tcp works video allowed_key session initial (replay tcp calls s) made,
          sym (replay-append tcp calls (responses initial) s),
          serve_lem remaining chunks (some [] ∷ more) w0 talk,
        )
        refl
