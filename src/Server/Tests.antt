-- ===== src/Server/Tests.antt =====
-- Whole connections over the stand-ins, and the theorems on them there.
use rtmp_vcam.Server.Talk.{Chunk, IsTalk, after_talk}
use rtmp_vcam.Server.Talk.{reads as chunk_reads}
use rtmp_vcam.Server.Full.{behind, IsShake, begun, handle_connection-talk}
use rtmp_vcam.Prelude.{arith, ◌≡◌, ◌≢◌, refl, map, true, none, some, List, [], ◌∷◌, ok, err}
use rtmp_vcam.Io.{permission_denied, unexpected_eof, transport}
use rtmp_vcam.Handshake
use rtmp_vcam.Session
use rtmp_vcam.Session.{
  World, outbound_response, write_all, flush, write_results, accept, send_results, grant,
  handle_event, handle_results, handle_answer, handle_input,
}
use rtmp_vcam.Session.Sample.{rml, rtmp, tcp, video, start, works}
use rtmp_vcam.Server.{
  Read, waits, closed, respond, proceed, shake, read_loop, serve, handle_connection,
}
use rtmp_vcam.Server.Run.{
  Accepted, spawn, accept_loop, run, lines, connection_rejected, connection_closed,
}
use rtmp_vcam.Server.Ends.{handle_connection-ends}
use rtmp_vcam.Server.Whole.{Runs, serve-Runs}

-- The second read ends the handshake and brings the request to connect, the third asks to publish
-- with a wrong key.
abbrev reads : List Read
reads = some (9 ∷ []) ∷ some (1 ∷ []) ∷ some (3 ∷ []) ∷ some [] ∷ []

rejected :
    handle_connection rml rtmp tcp video (some "good") reads [] []
    ≡ record { result = err permission_denied; stream = 1 ∷ 5 ∷ 1 ∷ 7 ∷ []; sink = [] }
unfolding handle_connection shake Handshake.new Handshake.process respond proceed write_all flush
    Session.new write_results serve read_loop handle_input handle_answer handle_results handle_event
    grant accept send_results
rejected = refl

closed_early :
    handle_connection rml rtmp tcp video none (some (9 ∷ []) ∷ some [] ∷ []) [] []
    ≡ record { result = err unexpected_eof; stream = 1 ∷ []; sink = [] }
unfolding handle_connection shake Handshake.new Handshake.process respond proceed write_all flush
closed_early = refl

handle_connection-ends_example :
    (handle_connection rml rtmp tcp video (some "good") reads [] []).result ≢ ok waits
handle_connection-ends_example =
    handle_connection-ends rml rtmp tcp video (some "good") reads [] [] tt

serve-Runs_example :
    Runs rtmp
      (some "good")
      []
      (serve rtmp tcp video (some "good") (1 ∷ []) (some (3 ∷ []) ∷ []) start).1.session
serve-Runs_example = serve-Runs rtmp tcp video (some "good") (1 ∷ []) (some (3 ∷ []) ∷ []) start

-- Two connections, and an error of `accept`: the first is rejected for its key, the second asks to
-- connect and waits.
abbrev accepts : List (Accepted rml rtmp tcp video)
accepts = some ([], reads) ∷ some ([], some (9 ∷ []) ∷ some (1 ∷ []) ∷ []) ∷ none ∷ []

rejected-lines :
    let (r, tasks) = run rml rtmp tcp video true (λ n. []) (some "good") accepts in
    (r ≡ err transport)
    × (map (λ t. t.log) tasks ≡ (connection_rejected ∷ connection_closed ∷ []) ∷ [] ∷ [])
unfolding run accept_loop spawn lines handle_connection shake Handshake.new Handshake.process
    respond proceed write_all flush Session.new write_results serve read_loop handle_input
    handle_answer handle_results handle_event grant accept send_results
rejected-lines = (refl, refl)

-- The second input completes the handshake and leaves a request to connect; a request to publish and
-- video data follow.
abbrev hands : List Chunk
hands = (9, []) ∷ (1, []) ∷ []

abbrev chunks : List Chunk
chunks = (2, []) ∷ (5, 0x27 ∷ 1 ∷ 0 ∷ 0 ∷ 0 ∷ 9 ∷ []) ∷ []

hands-IsShake : IsShake rml hands (1 ∷ []) 0
hands-IsShake = (refl, refl)

chunks-IsTalk : IsTalk rtmp (some "good") (behind (1 ∷ []) chunks) []
chunks-IsTalk = ((tt, tt), ((refl, tt), ((omega arith, tt), tt)))

handle_connection-talk_example :
    let w = after_talk rtmp tcp video (some "good") works (behind (1 ∷ []) chunks) (
      begun rml rtmp tcp video
        (some "good")
        works
        hands
        []
        (outbound_response (5 ∷ []) ∷ [])
        []
        []) in
    handle_connection rml rtmp tcp video
      (some "good")
      (chunk_reads hands (chunk_reads chunks (some [] ∷ [])))
      []
      []
    ≡ record { result = ok closed; stream = w.stream; sink = w.sink }
handle_connection-talk_example =
    handle_connection-talk rml rtmp tcp video (some "good") works hands chunks (1 ∷ []) [] []
      (outbound_response (5 ∷ []) ∷ []) [] [] hands-IsShake refl chunks-IsTalk
