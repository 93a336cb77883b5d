-- ===== src/Session/Calls.antt =====
-- The calls of a sink that the results of a session make, as a list.
use rtmp_vcam.Prelude.{
  ℕ, ◌%◌, ◌^◌, ◌≡◌, refl, ap, ◌∙◌, sym, Option, none, some, List, [], ◌∷◌, ◌++◌,
}
use rtmp_vcam.Flv.{
  AvcDecoderConfig, VideoPacket, sequence_header, nalu_data, end_of_sequence, unsupported,
  parse_video_data,
}
use rtmp_vcam.Session.{
  Event, connection_requested, publish_stream_requested, video_data_received,
  stream_metadata_changed, publish_stream_finished, audio_data_received, unnamed_event,
  release_stream_requested, SessionResult, outbound_response, raised_event, unhandleable_message,
  VideoSink,
}
use rtmp_vcam.Session.Feed.{feed, feed_packet, feed_event}

pub data SinkCall : Type 0 where
  config_call : AvcDecoderConfig → SinkCall
  data_call : List ℕ → ℕ → SinkCall

abbrev pub apply : (video : VideoSink) → List SinkCall → video.Sink → video.Sink
apply video [] k = k
apply video (config_call config ∷ calls) k = apply video calls (video.on_decoder_config config k)
apply video (data_call payload t ∷ calls) k = apply video calls (video.on_video_data payload t k)

pub apply-append :
    (video : VideoSink) (xs ys : List SinkCall) (k : video.Sink)
    → apply video (xs ++ ys) k ≡ apply video ys (apply video xs k)
apply-append video [] ys k = refl
apply-append video (config_call config ∷ xs) ys k =
    apply-append video xs ys (video.on_decoder_config config k)
apply-append video (data_call payload t ∷ xs) ys k =
    apply-append video xs ys (video.on_video_data payload t k)

abbrev pub packet_calls : Option VideoPacket → List SinkCall
packet_calls (some (sequence_header config)) = config_call config ∷ []
packet_calls (some (nalu_data payload t)) = data_call payload t ∷ []
packet_calls (some end_of_sequence) = []
packet_calls (some unsupported) = []
packet_calls none = []

abbrev pub event_calls : Event → List SinkCall
event_calls (video_data_received bytes timestamp) =
    packet_calls (parse_video_data bytes (timestamp % 2 ^ 32))
event_calls (connection_requested i) = []
event_calls (publish_stream_requested i key) = []
event_calls (release_stream_requested i) = []
event_calls stream_metadata_changed = []
event_calls publish_stream_finished = []
event_calls audio_data_received = []
event_calls unnamed_event = []

abbrev pub result_calls : List SessionResult → List SinkCall
result_calls [] = []
result_calls (raised_event event ∷ results) = event_calls event ++ result_calls results
result_calls (outbound_response bytes ∷ results) = result_calls results
result_calls (unhandleable_message type_id ∷ results) = result_calls results

module _ (video : VideoSink) where
  packet-apply :
      (p : Option VideoPacket) (k : video.Sink)
      → feed_packet video p k ≡ apply video (packet_calls p) k
  packet-apply (some (sequence_header config)) k = refl
  packet-apply (some (nalu_data payload t)) k = refl
  packet-apply (some end_of_sequence) k = refl
  packet-apply (some unsupported) k = refl
  packet-apply none k = refl

  event-apply :
      (event : Event) (k : video.Sink)
      → feed_event video event k ≡ apply video (event_calls event) k
  event-apply (video_data_received bytes timestamp) k =
      packet-apply (parse_video_data bytes (timestamp % 2 ^ 32)) k
  event-apply (connection_requested i) k = refl
  event-apply (publish_stream_requested i key) k = refl
  event-apply (release_stream_requested i) k = refl
  event-apply stream_metadata_changed k = refl
  event-apply publish_stream_finished k = refl
  event-apply audio_data_received k = refl
  event-apply unnamed_event k = refl

  pub feed-apply :
      (results : List SessionResult) (k : video.Sink)
      → feed video results k ≡ apply video (result_calls results) k
  feed-apply [] k = refl
  feed-apply (raised_event event ∷ results) k =
      feed-apply results (feed_event video event k)
      ∙ ap (apply video (result_calls results)) (event-apply event k)
      ∙ sym (apply-append video (event_calls event) (result_calls results) k)
  feed-apply (outbound_response bytes ∷ results) k = feed-apply results k
  feed-apply (unhandleable_message type_id ∷ results) k = feed-apply results k
