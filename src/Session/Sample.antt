-- ===== src/Session/Sample.antt =====
-- A protocol library, a stream and a sink for the tests: small concrete stand-ins for what the
-- session takes as parameters.
use rtmp_vcam.Prelude.{ℕ, true, Option, none, some, List, [], ◌∷◌, ◌++◌, ◌==◌, if◌then◌else◌, refl}
use rtmp_vcam.Handshake.{Rml, HandshakeResult, in_progress, finished}
use rtmp_vcam.Session.{
  connection_requested, publish_stream_requested, video_data_received, SessionResult,
  outbound_response, raised_event, Rtmp, Tcp, VideoSink, World,
}
use rtmp_vcam.Session.Feed.{IsWorking}

-- Done with the second input; its tail belongs to the session.
abbrev shake_twice : List ℕ → ℕ → HandshakeResult × ℕ
shake_twice input seen = if seen == 0 then (in_progress (1 ∷ []), 1) else (finished [] input, 2)

abbrev pub rml : Rml
rml = record { Handshake = ℕ; new_server = 0; process_bytes = shake_twice }

abbrev results_of : List ℕ → Option (List SessionResult)
results_of [] = none
results_of (x ∷ xs) =
    if x == 1
    then some (raised_event (connection_requested 1) ∷ outbound_response (7 ∷ []) ∷ [])
    else if x == 2
    then some (raised_event (publish_stream_requested 2 "good") ∷ [])
    else if x == 3
    then some (
        raised_event (publish_stream_requested 3 "bad")
        ∷ raised_event (connection_requested 4)
        ∷ [])
    else if x == 4
    then none
    else some (raised_event (video_data_received xs 40) ∷ [])

-- A session is the list of the requests that it has accepted, the last one first.
abbrev pub rtmp : Rtmp
rtmp = record {
  ServerSession = List ℕ;
  create = some ([], outbound_response (5 ∷ []) ∷ []);
  take_input = λ input s. (results_of input, s);
  accept_request = λ i s. (some (outbound_response (i ∷ []) ∷ []), i ∷ s);
}

-- A stream is what was sent.
abbrev pub tcp : Tcp
tcp = record { TcpStream = List ℕ; send = λ bytes s. (true, s ++ bytes); sync = λ s. (true, s) }

-- A sink keeps the payloads, the last one first.
abbrev pub video : VideoSink
video = record {
  Sink = List (List ℕ);
  on_decoder_config = λ config k. config.sps ++ k;
  on_video_data = λ payload timestamp k. (timestamp ∷ payload) ∷ k;
}

abbrev pub start : World rtmp tcp video
start = record { session = []; stream = []; sink = [] }

pub works : IsWorking rtmp tcp
works = record {
  sends = λ bytes s. refl;
  syncs = λ s. refl;
  accepts = λ i s. (outbound_response (i ∷ []) ∷ [], refl);
}
