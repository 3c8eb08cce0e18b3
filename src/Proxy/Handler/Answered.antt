-- ===== src/Proxy/Handler/Answered.antt =====
-- handleProxy from the provider's response on: every way to the end records the call.
use crabwise.Common.{
  ◌≡◌, refl, ◌&&◌, ◌||◌, Option, none, some, Text, codes, non_empty, to_lower, contains, ltb,
  if-intro, option-intro, if◌then◌else◌,
}
use crabwise.Common.Result.{result-intro}
use crabwise.Audit.Event.{AuditEvent, outcome_success}
use crabwise.Proxy.Provider.{NormalizedResponse, UpstreamRequest, UpstreamResponse}
use crabwise.Proxy.Stream.{BufferedResult, buffer_sse_stream}
use crabwise.Proxy.Policy.{Environment}
use crabwise.Proxy.Handler.Parts.{targets_of, Config, Metrics, Http, max_buffer}
use crabwise.Proxy.Handler.Ends.{
  Call, zero_response, mapping_failed, read_failed, written, write_error, read_all,
  count_upstream_error,
}
use crabwise.Proxy.Handler.Upstream.{
  send_stream, enforce_stream, stream_failed, answer_stream, send_body, enforce_body, check_body,
  answer_body, answer_upstream,
}
use crabwise.Proxy.Handler.Recorded.{
  Steady, Recorded, reject_plain-IsRecorded, forbid_tool-IsRecorded, settle-IsRecorded,
}

written-Steady :
    (e : Option Text) (m : Metrics) (norm : NormalizedResponse) → Steady m (written e m norm).0
unfolding written
written-Steady none m norm = (refl, refl, refl)
written-Steady (some e) m norm = (refl, refl, refl)

module _ (env : Environment) (http : Http) (cfg : Config) (c : Call)
    (begun : c.preflight.outcome ≡ outcome_success) where
  send_stream-IsRecorded :
      (up : UpstreamResponse) (buffered : BufferedResult) (sent : Option UpstreamRequest)
      → Recorded c (send_stream env http cfg c up buffered sent)
  unfolding send_stream
  send_stream-IsRecorded up buffered sent =
      let norm = zero_response up.status c.degraded in
      settle-IsRecorded env http cfg c (written c.request.write_error c.metrics norm).0
        (record (written c.request.write_error c.metrics norm).1 {
          input_tokens = buffered.telemetry.input_tokens;
          output_tokens = buffered.telemetry.output_tokens;
          finish_reason = buffered.telemetry.finish_reason;
          model =
              if non_empty buffered.telemetry.model
              then buffered.telemetry.model
              else (written c.request.write_error c.metrics norm).1.model;
        })
        up.status buffered.telemetry.first_token_at _ sent
        (written-Steady c.request.write_error c.metrics norm) begun refl

  enforce_stream-IsRecorded :
      (up : UpstreamResponse) (buffered : BufferedResult) (verdict : Option (AuditEvent × Text))
      (sent : Option UpstreamRequest)
      → Recorded c (enforce_stream env http cfg c up buffered verdict sent)
  unfolding enforce_stream
  enforce_stream-IsRecorded up buffered none sent = send_stream-IsRecorded up buffered sent
  enforce_stream-IsRecorded up buffered (some (tool, name)) sent =
      forbid_tool-IsRecorded env http cfg c c.metrics (codes "response_side_stream") name tool sent
        (refl, refl, refl)

  stream_failed-IsRecorded :
      (e : Text) (sent : Option UpstreamRequest) → Recorded c (stream_failed env http cfg c e sent)
  unfolding stream_failed
  stream_failed-IsRecorded e sent =
      if-intro (Recorded c)
        (contains e (codes "stream buffer exceeded") || contains e (codes "enforcement_error")) _ _
        (λ enforced. reject_plain-IsRecorded env http cfg c c.metrics _ e sent (refl, refl, refl))
        (λ upstream.
          reject_plain-IsRecorded env http cfg c (count_upstream_error c.metrics) _ e sent
            (refl, refl, refl))

  answer_stream-IsRecorded :
      (up : UpstreamResponse) (sent : Option UpstreamRequest)
      → Recorded c (answer_stream env http cfg c up sent)
  unfolding answer_stream
  answer_stream-IsRecorded up sent =
      result-intro (Recorded c)
        (buffer_sse_stream http.valid http.quote (targets_of http)
          c.runtime.transport.parse_stream_event http.now (max_buffer cfg.stream_max_buffer)
          up.body)
        _ _ (λ buffered whole. enforce_stream-IsRecorded up buffered _ sent)
        (λ e broken. stream_failed-IsRecorded e sent)

  send_body-IsRecorded :
      (up : UpstreamResponse) (m : Metrics) (norm : NormalizedResponse) (body : Text)
      (sent : Option UpstreamRequest)
      → Steady c.metrics m
      → Recorded c (send_body env http cfg c up m norm body sent)
  unfolding send_body
  send_body-IsRecorded up m norm body sent steady =
      if-intro (Recorded c) (non_empty body) _ _
        (λ some_body.
          option-intro (Recorded c) (c.runtime.mapping.normalize_response body up.status).1 _ _
            (λ mapped.
              settle-IsRecorded env http cfg c m
                (write_error c.request.write_error
                  (record (c.runtime.mapping.normalize_response body up.status).0 {
                    mapping_degraded = c.degraded;
                  }))
                up.status 0 _ sent steady begun refl)
            (λ e unmapped.
              if-intro (Recorded c) cfg.mapping_strict_mode _ _
                (λ strict.
                  settle-IsRecorded env http cfg c _ (mapping_failed e norm) up.status 0 _ sent
                    steady begun (refl, refl))
                (λ lenient.
                  settle-IsRecorded env http cfg c _
                    (write_error c.request.write_error (mapping_failed e norm)) up.status 0 _ sent
                    steady begun refl)))
        (λ no_body. settle-IsRecorded env http cfg c m norm up.status 0 _ sent steady begun refl)

  enforce_body-IsRecorded :
      (up : UpstreamResponse) (m : Metrics) (norm : NormalizedResponse) (body : Text)
      (verdict : Option (AuditEvent × Text)) (sent : Option UpstreamRequest)
      → Steady c.metrics m
      → Recorded c (enforce_body env http cfg c up m norm body verdict sent)
  unfolding enforce_body
  enforce_body-IsRecorded up m norm body none sent steady =
      send_body-IsRecorded up m norm body sent steady
  enforce_body-IsRecorded up m norm body (some (tool, name)) sent steady =
      forbid_tool-IsRecorded env http cfg c m (codes "response_side") name tool sent steady

  check_body-IsRecorded :
      (up : UpstreamResponse) (m : Metrics) (norm : NormalizedResponse) (body : Text)
      (sent : Option UpstreamRequest)
      → Steady c.metrics m
      → Recorded c (check_body env http cfg c up m norm body sent)
  unfolding check_body
  check_body-IsRecorded up m norm body sent steady =
      if-intro (Recorded c)
        (non_empty body
          && (ltb up.status 400 && contains (to_lower up.content_type) (codes "application/json")))
        _ _
        (λ json.
          result-intro (Recorded c) (c.runtime.transport.extract_tool_use_blocks body) _ _
            (λ blocks extracted. enforce_body-IsRecorded up m norm body _ sent steady)
            (λ e failed. reject_plain-IsRecorded env http cfg c m _ _ sent steady))
        (λ other. send_body-IsRecorded up m norm body sent steady)

  answer_body-IsRecorded :
      (up : UpstreamResponse) (sent : Option UpstreamRequest)
      → Recorded c (answer_body env http cfg c up sent)
  unfolding answer_body
  answer_body-IsRecorded up sent =
      option-intro (Recorded c) (read_all up.body).1 _ _
        (λ read.
          check_body-IsRecorded up c.metrics (zero_response up.status c.degraded) _ sent
            (refl, refl, refl))
        (λ e failed.
          check_body-IsRecorded up (count_upstream_error c.metrics)
            (read_failed e (zero_response up.status c.degraded)) _ sent (refl, refl, refl))

  pub answer_upstream-IsRecorded :
      (up : UpstreamResponse) (sent : Option UpstreamRequest)
      → Recorded c (answer_upstream env http cfg c up sent)
  unfolding answer_upstream
  answer_upstream-IsRecorded up sent =
      if-intro (Recorded c)
        (c.normalized.stream || contains (to_lower up.content_type) (codes "text/event-stream")) _ _
        (λ stream. answer_stream-IsRecorded up sent) (λ body. answer_body-IsRecorded up sent)
