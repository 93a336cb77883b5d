-- ===== src/Session/Order.antt =====
-- The loop over the results as a composition: what stops it, and what the sink gets.
use Prim.Native.String.{String}
use rtmp_vcam.Prelude.{ℕ, ◌≡◌, refl, ap, ◌∙◌, true, Option, List, [], ◌∷◌, ◌++◌, Result, ok, err}
use rtmp_vcam.Io.{IoError, permission_denied, Io, and_then, ◌>>◌, pure, fail}
use rtmp_vcam.Session.{
  publish_stream_requested, SessionResult, outbound_response, raised_event, unhandleable_message,
  Rtmp, Tcp, VideoSink, World, write_all, flush, on_stream, refuses, handle_event, handle_results,
}

module _ (rtmp : Rtmp) (tcp : Tcp) (video : VideoSink) (allowed_key : Option String) where
  abbrev W : Type 0
  W = World rtmp tcp video

  -- One result.
  abbrev pub handle_result : SessionResult → Io W (Unit {0})
  handle_result (outbound_response bytes) = on_stream rtmp tcp video (write_all tcp bytes)
  handle_result (raised_event event) = handle_event rtmp tcp video allowed_key event
  handle_result (unhandleable_message type_id) = pure tt

  -- All of them, until one fails, with no flush behind.
  abbrev pub handle_each : List SessionResult → Io W (Unit {0})
  handle_each [] = pure tt
  handle_each (result ∷ results) = handle_result result >> handle_each results

  and_then-bind :
      (r : Result IoError (Unit {0})) (h k f : Io W (Unit {0})) (w : W)
      → ((v : W) → h v ≡ (k >> f) v)
      → and_then r (λ _. h) w ≡ (let (r', w') = and_then r (λ _. k) w in and_then r' (λ _. f) w')
  and_then-bind (ok u) h k f w e = e w
  and_then-bind (err x) h k f w e = refl

  -- The loop is `handle_each` and then the flush.
  handle_results-eq :
      (results : List SessionResult) (w : W)
      → handle_results rtmp tcp video allowed_key results w
        ≡ (handle_each results >> on_stream rtmp tcp video (flush tcp)) w
  unfolding handle_results
  handle_results-eq [] w = refl
  handle_results-eq (outbound_response bytes ∷ results) w =
      let (r, v) = handle_result (outbound_response bytes) w in
      and_then-bind r (handle_results rtmp tcp video allowed_key results) (handle_each results)
        (on_stream rtmp tcp video (flush tcp)) v (handle_results-eq results)
  handle_results-eq (raised_event event ∷ results) w =
      let (r, v) = handle_result (raised_event event) w in
      and_then-bind r (handle_results rtmp tcp video allowed_key results) (handle_each results)
        (on_stream rtmp tcp video (flush tcp)) v (handle_results-eq results)
  handle_results-eq (unhandleable_message type_id ∷ results) w = handle_results-eq results w

  handle_each-append :
      (before after : List SessionResult) (w : W)
      → handle_each (before ++ after) w ≡ (handle_each before >> handle_each after) w
  handle_each-append [] after w = refl
  handle_each-append (result ∷ before) after w =
      let (r, v) = handle_result result w in
      and_then-bind r (handle_each (before ++ after)) (handle_each before) (handle_each after) v
        (handle_each-append before after)

  handle_refused :
      (request_id : ℕ) (stream_key : String) (w : W)
      → refuses allowed_key stream_key ≡ true
      → handle_event rtmp tcp video allowed_key (publish_stream_requested request_id stream_key) w
        ≡ (err permission_denied, w)
  unfolding handle_event
  handle_refused request_id stream_key w e = rw e refl

  -- A request to publish with a wrong key ends the loop: the results before it are handled, the
  -- call fails with PermissionDenied where they succeeded, and neither the request nor anything
  -- behind it nor the flush has any effect.
  pub handle_results_refused :
      (before after : List SessionResult) (request_id : ℕ) (stream_key : String) (w : W)
      → refuses allowed_key stream_key ≡ true
      → handle_results rtmp tcp video allowed_key
          (before ++ raised_event (publish_stream_requested request_id stream_key) ∷ after)
          w
        ≡ (handle_each before >> fail permission_denied) w
  handle_results_refused before after request_id stream_key w e =
      handle_results-eq (before ++ bad ∷ after) w
      ∙ ap (λ (x : Result IoError (Unit {0}) × W). and_then x.0 (λ _. end) x.1)
          (handle_each-append before (bad ∷ after) w)
      ∙ stop (handle_each before w).0 (handle_each before w).1
    where
      bad : SessionResult
      bad = raised_event (publish_stream_requested request_id stream_key)

      end : Io W (Unit {0})
      end = on_stream rtmp tcp video (flush tcp)

      stop :
          (r : Result IoError (Unit {0})) (v : W)
          → (let (r', w') = and_then r (λ _. handle_each (bad ∷ after)) v in
              and_then r' (λ _. end) w')
            ≡ and_then r (λ _. fail permission_denied) v
      stop (ok u) v =
          ap
            (λ (x : Result IoError (Unit {0}) × W).
              let (r', w') = and_then x.0 (λ _. handle_each after) x.1 in and_then r' (λ _. end) w')
            (handle_refused request_id stream_key v e)
      stop (err x) v = refl
