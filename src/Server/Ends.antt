-- ===== src/Server/Ends.antt =====
-- A connection ends when its socket does, and reads nothing behind the end.
use Prim.Native.String.{String}
use rtmp_vcam.Prelude.{ℕ, ◌≢◌, Option, none, some, List, [], ◌∷◌, Result, ok, err}
use rtmp_vcam.Io.{IoError, Io, and_then, ◌>>=◌, ◌>>◌}
use rtmp_vcam.Handshake
use rtmp_vcam.Handshake.{Rml, HandshakeState, process}
use rtmp_vcam.Session
use rtmp_vcam.Session.{SessionResult, Rtmp, Tcp, VideoSink, World, handle_input}
use rtmp_vcam.Server.{
  Read, Ending, waits, lift, respond, proceed, shake, read_loop, serve, with_session, after_shake,
  handle_connection,
}

-- The socket ends or fails within the reads.
abbrev pub HasEnd : List Read → Type 0
HasEnd [] = ⊥
HasEnd (none ∷ reads) = Unit
HasEnd (some [] ∷ reads) = Unit
HasEnd (some (x ∷ xs) ∷ reads) = HasEnd reads

module _ (rtmp : Rtmp) (tcp : Tcp) (video : VideoSink) (stream_key : Option String) where
  abbrev W : Type 0
  W = World rtmp tcp video

  and_then-ends :
      (r : Result IoError (Unit {0})) (k : Io W Ending) (v : W)
      → ((v : W) → (k v).0 ≢ ok waits)
      → (and_then r (λ _. k) v).0 ≢ ok waits
  and_then-ends (ok u) k v h = h v
  and_then-ends (err e) k v h = λ p. cc

  read_loop-ends :
      (reads : List Read) (w : W)
      → HasEnd reads
      → (read_loop rtmp tcp video stream_key reads w).0 ≢ ok waits
  unfolding read_loop
  read_loop-ends [] w h = absurd h
  read_loop-ends (none ∷ reads) w h = λ p. cc
  read_loop-ends (some [] ∷ reads) w h = λ p. cc
  read_loop-ends (some (x ∷ xs) ∷ reads) w h =
      let (r, v) = handle_input rtmp tcp video stream_key (x ∷ xs) w in
      and_then-ends r (read_loop rtmp tcp video stream_key reads) v (λ u. read_loop-ends reads u h)

  serve-ends :
      (remaining : List ℕ) (reads : List Read) (w : W)
      → HasEnd reads
      → (serve rtmp tcp video stream_key remaining reads w).0 ≢ ok waits
  unfolding serve
  serve-ends [] reads w h = read_loop-ends reads w h
  serve-ends (x ∷ xs) reads w h =
      let (r, v) = handle_input rtmp tcp video stream_key (x ∷ xs) w in
      and_then-ends r (read_loop rtmp tcp video stream_key reads) v (λ u. read_loop-ends reads u h)

-- How the first phase may stand when the reads have an end.
abbrev IsShaken : Result IoError (Option (List ℕ × List Read)) → Type 0
IsShaken (err e) = Unit
IsShaken (ok none) = ⊥
IsShaken (ok (some (remaining, reads))) = HasEnd reads

module _ (rml : Rml) (tcp : Tcp) where
  proceed-ends :
      (r : Result IoError (Unit {0})) (maybe : Option (List ℕ)) (reads : List Read)
      (again : Io tcp.TcpStream (Option (List ℕ × List Read))) (s : tcp.TcpStream)
      → HasEnd reads
      → ((s : tcp.TcpStream) → IsShaken (again s).0)
      → IsShaken (and_then r (λ _. proceed rml tcp maybe reads again) s).0
  unfolding proceed
  proceed-ends (ok u) none reads again s p h = h s
  proceed-ends (ok u) (some remaining) reads again s p h = p
  proceed-ends (err e) maybe reads again s p h = tt

  answer-ends :
      (r : Result IoError (List ℕ × Option (List ℕ))) (reads : List Read)
      (again : Io tcp.TcpStream (Option (List ℕ × List Read))) (s : tcp.TcpStream)
      → HasEnd reads
      → ((s : tcp.TcpStream) → IsShaken (again s).0)
      → IsShaken ((lift r >>= λ x. respond rml tcp x.0 >> proceed rml tcp x.1 reads again) s).0
  answer-ends (ok (response, maybe)) reads again s p h =
      let (r, t) = respond rml tcp response s in proceed-ends r maybe reads again t p h
  answer-ends (err e) reads again s p h = tt

  shake-ends :
      (reads : List Read) (h : HandshakeState rml) (s : tcp.TcpStream)
      → HasEnd reads
      → IsShaken (shake rml tcp h reads s).0
  unfolding shake
  shake-ends [] h s p = absurd p
  shake-ends (none ∷ reads) h s p = tt
  shake-ends (some [] ∷ reads) h s p = tt
  shake-ends (some (x ∷ xs) ∷ reads) h s p =
      let (r, h') = process rml (x ∷ xs) h in
      answer-ends r reads (shake rml tcp h' reads) s p (λ t. shake-ends reads h' t p)

module _ (rml : Rml) (rtmp : Rtmp) (tcp : Tcp) (video : VideoSink)
    (stream_key : Option String) where
  session-ends :
      (r : Result IoError rtmp.ServerSession) (remaining : List ℕ) (reads : List Read)
      (s : tcp.TcpStream) (sink : video.Sink)
      → HasEnd reads
      → (with_session rml rtmp tcp video stream_key r remaining reads s sink).result ≢ ok waits
  unfolding with_session
  session-ends (ok session) remaining reads s sink p =
      serve-ends rtmp tcp video stream_key remaining reads
        (record { session = session; stream = s; sink = sink }) p
  session-ends (err e) remaining reads s sink p = λ q. cc

  after_shake-ends :
      (r : Result IoError (Option (List ℕ × List Read))) (s : tcp.TcpStream) (sink : video.Sink)
      → IsShaken r
      → (after_shake rml rtmp tcp video stream_key r s sink).result ≢ ok waits
  unfolding after_shake
  after_shake-ends (err e) s sink p = λ q. cc
  after_shake-ends (ok none) s sink p = absurd p
  after_shake-ends (ok (some (remaining, reads))) s sink p =
      let (r, t) = Session.new rtmp tcp s in session-ends r remaining reads t sink p

  -- If the socket ends or fails within the reads, the connection's task returns: it is not left
  -- waiting, in whichever phase the end comes and whatever rml_rtmp and the sockets answer.
  pub handle_connection-ends :
      (reads : List Read) (s : tcp.TcpStream) (sink : video.Sink)
      → HasEnd reads
      → (handle_connection rml rtmp tcp video stream_key reads s sink).result ≢ ok waits
  unfolding handle_connection
  handle_connection-ends reads s sink p =
      let (r, t) = shake rml tcp (Handshake.new rml) reads s in
      after_shake-ends r t sink (shake-ends rml tcp reads (Handshake.new rml) s p)
