-- ===== src/Proxy/Handler/Upstream.antt =====
-- internal/adapter/proxy/proxy.go: handleProxy, from the response of the provider to the answer and
-- the events. Each early return of the source is a function here.
use crabwise.Common.{
  ◌&&◌, ◌||◌, Option, none, some, [], ◌++◌, Text, codes, non_empty, to_lower, contains, ltb,
  if◌then◌else◌,
}
use crabwise.Common.Result.{ok, err}
use crabwise.Audit.Event.{AuditEvent}
use crabwise.Proxy.Provider.{NormalizedResponse, UpstreamRequest, UpstreamResponse}
use crabwise.Proxy.Stream.{BufferedResult, buffer_sse_stream}
use crabwise.Proxy.Policy.{Environment, evaluate_tool_use_blocks}
use crabwise.Proxy.Handler.Parts.{
  targets_of, count_up, Config, Metrics, Answer, error, response, Http, response_headers,
  max_buffer,
}
use crabwise.Proxy.Handler.Ends.{
  Call, read_all, zero_response, count_upstream_error, written, write_error, mapping_failed,
  read_failed, reject_plain, forbid_tool, settle,
}

module _ (env : Environment) (http : Http) (cfg : Config) where
  -- A buffered stream goes to the client if no tool call in it is blocked.
  unfoldable pub send_stream :
      Call → UpstreamResponse → BufferedResult → Option UpstreamRequest → Answer
  unfolding settle written
  send_stream c up buffered sent =
      let t = buffered.telemetry in
      let (m, norm) =
        written c.request.write_error c.metrics (zero_response up.status c.degraded) in
      settle env http cfg c m
        (record norm {
          input_tokens = t.input_tokens;
          output_tokens = t.output_tokens;
          finish_reason = t.finish_reason;
          model = if non_empty t.model then t.model else norm.model;
        })
        up.status t.first_token_at
        (response up.status (response_headers c.event_id c.request.original_id up.headers)
          buffered.body)
        sent

  unfoldable pub enforce_stream :
      Call
      → UpstreamResponse
      → BufferedResult
      → Option (AuditEvent × Text)
      → Option UpstreamRequest
      → Answer
  unfolding forbid_tool send_stream
  enforce_stream c up buffered (some (tool, name)) sent =
      forbid_tool env http cfg c (codes "response_side_stream") tool name sent
  enforce_stream c up buffered none sent = send_stream c up buffered sent

  unfoldable pub stream_failed : Call → Text → Option UpstreamRequest → Answer
  stream_failed c e sent =
      if contains e (codes "stream buffer exceeded") || contains e (codes "enforcement_error")
      then reject_plain env http cfg c c.metrics (codes "enforcement_error") e sent
      else reject_plain env http cfg c (count_upstream_error c.metrics) (codes "upstream_error") e
          sent

  unfoldable pub answer_stream : Call → UpstreamResponse → Option UpstreamRequest → Answer
  unfolding enforce_stream stream_failed
  answer_stream c up sent =
      elim (buffer_sse_stream http.valid http.quote (targets_of http)
        c.runtime.transport.parse_stream_event http.now (max_buffer cfg.stream_max_buffer)
        up.body) [
          | err e ↦ stream_failed c e sent
          | ok buffered ↦
              enforce_stream c up buffered
                (evaluate_tool_use_blocks env buffered.tool_blocks c.provider c.normalized.model)
                sent
        ]

  -- The body of a response that is not a stream goes to the client as it is, unless the mapping
  -- fails in strict mode.
  unfoldable pub send_body :
      Call
      → UpstreamResponse
      → Metrics
      → NormalizedResponse
      → Text
      → Option UpstreamRequest
      → Answer
  unfolding settle write_error
  send_body c up m read_norm body sent =
      let headers = response_headers c.event_id c.request.original_id up.headers in
      let (mapped, failure) = c.runtime.mapping.normalize_response body up.status in
      if non_empty body
      then elim failure [
        | some e ↦
            let norm = mapping_failed e read_norm in
            let m' = record m { degraded = count_up m.degraded } in
            if cfg.mapping_strict_mode
            then settle env http cfg c m' norm up.status 0
                (error 502 (codes "mapping_error") norm.error_message c.event_id) sent
            else settle env http cfg c m' (write_error c.request.write_error norm) up.status 0
                (response up.status headers body) sent
        | none ↦
            settle env http cfg c m
              (write_error c.request.write_error (record mapped { mapping_degraded = c.degraded }))
              up.status 0 (response up.status headers body) sent
      ]
      else settle env http cfg c m read_norm up.status 0 (response up.status headers []) sent

  unfoldable pub enforce_body :
      Call
      → UpstreamResponse
      → Metrics
      → NormalizedResponse
      → Text
      → Option (AuditEvent × Text)
      → Option UpstreamRequest
      → Answer
  unfolding forbid_tool send_body
  enforce_body c up m norm body (some (tool, name)) sent =
      forbid_tool env http cfg (record c { metrics = m }) (codes "response_side") tool name sent
  enforce_body c up m norm body none sent = send_body c up m norm body sent

  unfoldable pub check_body :
      Call
      → UpstreamResponse
      → Metrics
      → NormalizedResponse
      → Text
      → Option UpstreamRequest
      → Answer
  unfolding enforce_body send_body
  check_body c up m norm body sent =
      if non_empty body
        && (ltb up.status 400 && contains (to_lower up.content_type) (codes "application/json"))
      then elim (c.runtime.transport.extract_tool_use_blocks body) [
        | err e ↦
            reject_plain env http cfg c m (codes "enforcement_error")
              (codes "failed to extract tool_use blocks: " ++ e) sent
        | ok blocks ↦
            enforce_body c up m norm body
              (evaluate_tool_use_blocks env blocks c.provider c.normalized.model) sent
      ]
      else send_body c up m norm body sent

  unfoldable pub answer_body : Call → UpstreamResponse → Option UpstreamRequest → Answer
  unfolding check_body read_all
  answer_body c up sent =
      let (body, failure) = read_all up.body in
      let norm = zero_response up.status c.degraded in
      elim failure [
        | none ↦ check_body c up c.metrics norm body sent
        | some e ↦ check_body c up (count_upstream_error c.metrics) (read_failed e norm) body sent
      ]

  unfoldable pub answer_upstream : Call → UpstreamResponse → Option UpstreamRequest → Answer
  unfolding answer_stream answer_body
  answer_upstream c up sent =
      if c.normalized.stream || contains (to_lower up.content_type) (codes "text/event-stream")
      then answer_stream c up sent
      else answer_body c up sent
