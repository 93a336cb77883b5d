-- ===== src/Camera/Tests.antt =====
-- The camera over a system that opens and maps the file and makes every buffer, and the theorems
-- there.
use rtmp_vcam.Prelude.{
  ◌++◌, ℕ, ◌≡◌, refl, ap, arith, true, false, none, some, List, [], ◌∷◌, Result, ok, err, map,
}
use rtmp_vcam.Frame.{Bytes, Fault}
use rtmp_vcam.Ipc.{pos, negsuc}
use rtmp_vcam.Ipc.Balance.{opens, closes}
use rtmp_vcam.Session.Sample.{rtmp, tcp, works}
use rtmp_vcam.Session.Calls.{config_call, data_call, apply}
use rtmp_vcam.Server.{read_loop}
use rtmp_vcam.Server.Talk.{Chunk, reads, IsTalk, talk_calls, after_talk}
use rtmp_vcam.Flv.{
  index, parse_avc, parse_sequence_header, parse_config, parse_tables, read_sets, read_set, slice,
  slice_from, parse_nalu_data, parse_video_data,
}
use rtmp_vcam.Camera.Talk.{talk-IsSent}
use rtmp_vcam.Sink.{DecoderSink, decoder_sink}
use rtmp_vcam.Reader.{Picture}
use rtmp_vcam.Reader.Shows.{IsPicture}
use rtmp_vcam.Reader.Any.{Creates, IsRead, read_latest_frame-IsRead}
use rtmp_vcam.Reader.{read_latest_frame}
use rtmp_vcam.Pipeline.{Shm, with_callback}
use rtmp_vcam.Pipeline.Sample.{
  vt, create, new_picture, new-IsPicture, good, config, header, nalu, zeros, start,
}
use rtmp_vcam.Camera
use rtmp_vcam.Camera.{
  Platform, Sent, Source, Event, attach, stop, tick, deliver_frame, start_stream, stop_streaming,
  connect, run_events,
}
use rtmp_vcam.Camera.Runs.{IsConnected, run_events-IsConnected}
use rtmp_vcam.Camera.Sends.{Makes, IsWorking, SendsOne, Expected, deliver_frame-SendsOne}
use rtmp_vcam.Camera.Live.{IsSent}

-- The state of the system is what the file holds.
abbrev mac : Platform
mac = record {
  State = Bytes;
  open_file = λ t. (pos 3, t);
  mmap = λ fd t. (4096, t);
  munmap = λ p t. t;
  close = λ fd t. t;
  contents = λ p t. t;
  pixel_buffer = λ w h t. create w h;
  has_format = λ p t. true;
  has_sample = λ p t. true;
  send = λ p b t. t;
}

create-Creates : Creates create
create-Creates = record { made = λ w h p e. subst_made w h p e }
  where
    some_injective : (p q : Picture) → some p ≡ some q → p ≡ q
    some_injective p q e = cc

    subst_made : (w h : ℕ) (p : Picture) → create w h ≡ some p → IsPicture w h p
    subst_made w h p e = rw (← some_injective (new_picture w h) p e) (new-IsPicture w h)

mac-Makes : Makes mac
mac-Makes t = create-Creates

mac-IsWorking : IsWorking mac
mac-IsWorking = record {
  picture = λ w h t. new_picture w h;
  made = λ w h t. refl;
  has_format = λ p t. refl;
  has_sample = λ p t. refl;
}

read_latest_frame-IsRead_example : IsRead create zeros.shm (read_latest_frame create zeros.shm)
read_latest_frame-IsRead_example = read_latest_frame-IsRead create zeros.shm create-Creates

abbrev events : List (Event mac)
events = attach ∷ Event.start ∷ tick ∷ stop ∷ tick ∷ []

run_events-IsConnected_example :
    (s' : Source mac) × (run_events mac events (Camera.new mac zeros.shm) ≡ ok s')
    × IsConnected mac 3 4096 s'
run_events-IsConnected_example = run_events-IsConnected mac 3 4096 events zeros.shm mac-Makes

-- An attached camera that has mapped a file.
abbrev streaming : Bytes → Source mac
streaming shm = record {
  platform = shm;
  entries = [];
  attached = true;
  timer = true;
  shm_pointer = some 4096;
  shm_fd = pos 3;
  is_streaming = true;
  sequence_number = 0;
  last_write_index = 0;
  shm_retry_count = 0;
  sent = [];
}

deliver_frame-SendsOne_example :
    (s' : Source mac) × (p : Picture) × (deliver_frame mac (streaming zeros.shm) ≡ ok s')
    × SendsOne (streaming zeros.shm) s' p
    × Expected mac (some 4096) zeros.shm p
unfolding connect
deliver_frame-SendsOne_example =
    deliver_frame-SendsOne mac mac-Makes mac-IsWorking (streaming zeros.shm) refl

abbrev shm_of : Shm → Bytes
shm_of (ok st) = st.shm
shm_of (err e) = zeros.shm

abbrev source_of : Result Fault (Source mac) → Source mac
source_of (ok s) = s
source_of (err e) = streaming zeros.shm

-- The marks of the frames sent, newest first: one frame of the second start, and two of the first.
marks :
    map
      (λ f. f.discontinuity)
      (source_of (
        run_events mac
          (attach ∷ Event.start ∷ tick ∷ tick ∷ stop ∷ tick ∷ Event.start ∷ tick ∷ [])
          (Camera.new mac zeros.shm))).sent
    ≡ true ∷ false ∷ true ∷ []
unfolding run_events rtmp_vcam.Camera.on_event start_stream stop_streaming deliver_frame Camera.new
    rtmp_vcam.Camera.deliver_or_black rtmp_vcam.Camera.black_frame rtmp_vcam.Camera.read_from
    rtmp_vcam.Camera.fill_black rtmp_vcam.Camera.fill_plane read_latest_frame
    rtmp_vcam.Ipc.is_negative
marks = refl

abbrev stopped : Bytes → Source mac
stopped shm = record (streaming shm) {
  timer = false;
  is_streaming = false;
  shm_pointer = none;
  shm_fd = negsuc 0;
}

-- A handler that was running when the timer was cancelled, and that looks for the mapping when it
-- is closed: it maps the file again, while nothing streams. The next start maps it once more and
-- forgets the descriptor: three were opened and one was closed, and one is held.
abbrev late : Source mac
late = source_of (deliver_frame mac (stop_streaming mac (start_stream mac (stopped zeros.shm))))

leaked :
    (opens 3 (start_stream mac late).entries ≡ 3) × (closes 3 (start_stream mac late).entries ≡ 1)
unfolding start_stream stop_streaming deliver_frame rtmp_vcam.Camera.deliver_or_black
    rtmp_vcam.Camera.black_frame rtmp_vcam.Camera.read_from rtmp_vcam.Camera.fill_black
    rtmp_vcam.Camera.fill_plane read_latest_frame rtmp_vcam.Ipc.is_negative
leaked = (refl, refl)

-- A connection, a request to publish, a sequence header and two packets of video data.
abbrev chunks : List Chunk
chunks = (1, []) ∷ (2, []) ∷ (5, header) ∷ (5, nalu) ∷ (5, 0x27 ∷ 1 ∷ 0 ∷ 0 ∷ 0 ∷ 9 ∷ []) ∷ []

chunks-IsTalk : IsTalk rtmp (some "good") chunks []
chunks-IsTalk =
    ((tt, tt), ((refl, tt), ((omega arith, tt), ((omega arith, tt), ((omega arith, tt), tt)))))

chunk_calls :
    talk_calls rtmp (some "good") chunks []
    ≡ ([] ++ config_call config ∷ data_call (7 ∷ 8 ∷ []) 40 ∷ []) ++ data_call (9 ∷ []) 40 ∷ []
unfolding parse_video_data index parse_avc parse_sequence_header parse_config parse_tables read_sets
    read_set slice slice_from parse_nalu_data
chunk_calls = refl

abbrev talked : DecoderSink (with_callback vt)
talked =
    (after_talk rtmp tcp (decoder_sink (with_callback vt)) (some "good") works chunks start).sink

talk-IsSent_example :
    let sink = decoder_sink (with_callback vt) in
    (read_loop rtmp tcp sink (some "good") (reads chunks (some [] ∷ [])) start
      ≡ read_loop rtmp tcp sink
          (some "good")
          (some [] ∷ [])
          (after_talk rtmp tcp sink (some "good") works chunks start))
    × IsSent vt mac
        (streaming (shm_of talked.machine.state.1))
        good
        (9 ∷ [])
        40
        (apply sink ([] ++ config_call config ∷ data_call (7 ∷ 8 ∷ []) 40 ∷ []) start.sink)
talk-IsSent_example =
    talk-IsSent vt mac (streaming (shm_of talked.machine.state.1)) 4096 good rtmp tcp (some "good")
      chunks (some [] ∷ []) [] (data_call (7 ∷ 8 ∷ []) 40 ∷ []) config (9 ∷ []) 40 start zeros works
      chunks-IsTalk chunk_calls refl (omega arith) mac-Makes mac-IsWorking refl refl
      (λ st e. ap shm_of e)
