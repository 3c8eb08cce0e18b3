-- ===== src/Proxy/Handler/Released.antt =====
-- What handleProxy lets through to the client: only what the commandments were asked about.
use crabwise.Common.{
  ℕ, ◌≡◌, refl, Bool, true, false, ◌&&◌, ◌||◌, Option, none, some, List, [], ◌∷◌, subst, Text,
  codes, non_empty, to_lower, contains, ltb, if-intro, option-intro, ◌⊎◌, inl, inr,
}
use crabwise.Common.Result.{ok, result-intro}
use crabwise.Audit.Event.{AuditEvent}
use crabwise.Proxy.Provider.{
  NormalizedResponse, UpstreamRequest, UpstreamResponse, ToolUseBlock, Headers, ProviderRuntime,
}
use crabwise.Proxy.Stream.{BufferedResult, buffer_sse_stream}
use crabwise.Proxy.Redaction.{redact_payload}
use crabwise.Proxy.Policy.{Environment, should_block, evaluate_tool_use_blocks}
use crabwise.Proxy.Handler.{
  redact_egress, reject_with, send_upstream, forward_call, forbid_request, decide_call,
}
use crabwise.Proxy.Handler.Parts.{
  targets_of, Config, Metrics, Answer, Reply, error, response, Http, max_buffer, response_headers,
  build_upstream_request,
}
use crabwise.Proxy.Handler.Ends.{
  Call, zero_response, read_failed, read_all, reject, forbid_tool, settle,
}
use crabwise.Proxy.Handler.Upstream.{
  send_stream, enforce_stream, stream_failed, answer_stream, send_body, enforce_body, check_body,
  answer_body, answer_upstream,
}
use crabwise.Proxy.Handler.Recorded.{is_denied}

non_empty-false : (s : Text) → non_empty s ≡ false → s ≡ []
non_empty-false [] h = refl
non_empty-false (x ∷ s) h = absurd cc

-- A response whose tool calls are looked at when it is no stream.
abbrev pub is_enforced : UpstreamResponse → Text → Bool
is_enforced up body =
    non_empty body
    && (ltb up.status 400 && contains (to_lower up.content_type) (codes "application/json"))

-- An answer that comes as a stream: the request asked for one, or the response says so.
abbrev pub is_stream : Bool → UpstreamResponse → Bool
is_stream asked up = asked || contains (to_lower up.content_type) (codes "text/event-stream")

module _ (env : Environment) (http : Http) (cfg : Config) where
  -- What the client may be told of a response: an error; of a stream, what was buffered to its
  -- end and whose tool calls the commandments let pass; of another response, a body whose tool calls
  -- they let pass, or a body that is no JSON, is empty, or comes with a status of 400 and above.
  pub data Released (runtime : ProviderRuntime) (provider model : Text) (asked : Bool)
      (up : UpstreamResponse) : Reply → Type 0 where
    refused :
        (status : ℕ) (kind message id : Text)
        → Released runtime provider model asked up (error status kind message id)
    streamed :
        (status : ℕ) (headers : Headers) (b : BufferedResult)
        → is_stream asked up ≡ true
        → buffer_sse_stream http.valid http.quote
            (targets_of http)
            runtime.transport.parse_stream_event
            http.now
            (max_buffer cfg.stream_max_buffer)
            up.body
          ≡ ok b
        → evaluate_tool_use_blocks env b.tool_blocks provider model ≡ none
        → Released runtime provider model asked up (response status headers b.body)
    checked :
        (status : ℕ) (headers : Headers) (blocks : List ToolUseBlock)
        → is_stream asked up ≡ false
        → runtime.transport.extract_tool_use_blocks (read_all up.body).0 ≡ ok blocks
        → evaluate_tool_use_blocks env blocks provider model ≡ none
        → Released runtime provider model asked up (response status headers (read_all up.body).0)
    exempt :
        (status : ℕ) (headers : Headers)
        → is_stream asked up ≡ false
        → is_enforced up (read_all up.body).0 ≡ false
        → Released runtime provider model asked up (response status headers (read_all up.body).0)

  module _ (c : Call) (up : UpstreamResponse) (sent : Option UpstreamRequest) where
    abbrev Outcome : Answer → Type 0
    Outcome a =
        Released c.runtime c.provider c.normalized.model c.normalized.stream up a.reply
        × (a.forwarded ≡ sent)

    enforce_stream-Releases :
        (b : BufferedResult) (verdict : Option (AuditEvent × Text))
        → is_stream c.normalized.stream up ≡ true
        → buffer_sse_stream http.valid http.quote
            (targets_of http)
            c.runtime.transport.parse_stream_event
            http.now
            (max_buffer cfg.stream_max_buffer)
            up.body
          ≡ ok b
        → evaluate_tool_use_blocks env b.tool_blocks c.provider c.normalized.model ≡ verdict
        → Outcome (enforce_stream env http cfg c up b verdict sent)
    unfolding enforce_stream forbid_tool send_stream settle
    enforce_stream-Releases b none stream whole clear = (streamed _ _ b stream whole clear, refl)
    enforce_stream-Releases b (some (tool, name)) stream whole found = (refused _ _ _ _, refl)

    answer_stream-Releases :
        is_stream c.normalized.stream up ≡ true → Outcome (answer_stream env http cfg c up sent)
    unfolding answer_stream stream_failed
    answer_stream-Releases stream =
        result-intro Outcome
          (buffer_sse_stream http.valid http.quote (targets_of http)
            c.runtime.transport.parse_stream_event http.now (max_buffer cfg.stream_max_buffer)
            up.body)
          _ _ (λ b whole. enforce_stream-Releases b _ stream whole refl)
          (λ e broken.
            if-intro Outcome
              (contains e (codes "stream buffer exceeded")
                || contains e (codes "enforcement_error"))
              _ _ (λ enforced. (refused _ _ _ _, refl)) (λ upstream. (refused _ _ _ _, refl)))

    -- The body goes out as it is.
    abbrev Lets : Type 0
    Lets =
        (status : ℕ) (headers : Headers)
        → Released c.runtime c.provider c.normalized.model c.normalized.stream up
            (response status headers (read_all up.body).0)

    send_body-Releases :
        (m : Metrics) (norm : NormalizedResponse)
        → Lets
        → Outcome (send_body env http cfg c up m norm (read_all up.body).0 sent)
    unfolding send_body settle
    send_body-Releases m norm lets =
        if-intro Outcome (non_empty (read_all up.body).0) _ _
          (λ some_body.
            option-intro Outcome
              (c.runtime.mapping.normalize_response (read_all up.body).0 up.status).1 _ _
              (λ mapped. (lets _ _, refl))
              (λ e unmapped.
                if-intro Outcome cfg.mapping_strict_mode _ _ (λ strict. (refused _ _ _ _, refl))
                  (λ lenient. (lets _ _, refl))))
          (λ no_body. (
            subst
                (λ (b : Text).
                  Released c.runtime c.provider c.normalized.model c.normalized.stream up (
                    response up.status
                      (response_headers c.event_id c.request.original_id up.headers) b))
                (non_empty-false (read_all up.body).0 no_body) (lets _ _),
            refl,
          ))

    enforce_body-Releases :
        (m : Metrics) (norm : NormalizedResponse) (blocks : List ToolUseBlock)
        (verdict : Option (AuditEvent × Text))
        → is_stream c.normalized.stream up ≡ false
        → c.runtime.transport.extract_tool_use_blocks (read_all up.body).0 ≡ ok blocks
        → evaluate_tool_use_blocks env blocks c.provider c.normalized.model ≡ verdict
        → Outcome (enforce_body env http cfg c up m norm (read_all up.body).0 verdict sent)
    unfolding enforce_body forbid_tool
    enforce_body-Releases m norm blocks none plain extracted clear =
        send_body-Releases m norm
          (λ status headers. checked status headers blocks plain extracted clear)
    enforce_body-Releases m norm blocks (some (tool, name)) plain extracted found =
        (refused _ _ _ _, refl)

    check_body-Releases :
        (m : Metrics) (norm : NormalizedResponse)
        → is_stream c.normalized.stream up ≡ false
        → Outcome (check_body env http cfg c up m norm (read_all up.body).0 sent)
    unfolding check_body
    check_body-Releases m norm plain =
        if-intro Outcome (is_enforced up (read_all up.body).0) _ _
          (λ json.
            result-intro Outcome (c.runtime.transport.extract_tool_use_blocks (read_all up.body).0)
              _ _ (λ blocks extracted. enforce_body-Releases m norm blocks _ plain extracted refl)
              (λ e failed. (refused _ _ _ _, refl)))
          (λ other. send_body-Releases m norm (λ status headers. exempt status headers plain other))

    answer_upstream-Releases : Outcome (answer_upstream env http cfg c up sent)
    unfolding answer_upstream answer_body
    answer_upstream-Releases =
        if-intro Outcome
          (c.normalized.stream || contains (to_lower up.content_type) (codes "text/event-stream")) _
          _ (λ stream. answer_stream-Releases stream)
          (λ plain.
            option-intro Outcome (read_all up.body).1 _ _
              (λ read. check_body-Releases c.metrics (zero_response up.status c.degraded) plain)
              (λ e failed.
                check_body-Releases _ (read_failed e (zero_response up.status c.degraded)) plain))

  -- A request that was sent on: it fails with an error that is no denial, or what the provider
  -- answers to the request that was forwarded is released.
  pub data Sent (runtime : ProviderRuntime) (provider model : Text) (asked : Bool) (a : Answer)
      : Type 0 where
    failed :
        (status : ℕ) (kind message id : Text)
        → a.reply ≡ error status kind message id
        → is_denied a.reply ≡ false
        → Sent runtime provider model asked a
    answered :
        (req : UpstreamRequest) (up : UpstreamResponse)
        → runtime.transport.forward req ≡ ok up
        → a.forwarded ≡ some req
        → Released runtime provider model asked up a.reply
        → Sent runtime provider model asked a

  abbrev SentFor : Call → Answer → Type 0
  SentFor c a = Sent c.runtime c.provider c.normalized.model c.normalized.stream a

  forward_call-Sent : (c : Call) → SentFor c (forward_call env http cfg c)
  unfolding forward_call send_upstream reject_with reject is_denied
  forward_call-Sent c =
      result-intro (SentFor c) (build_upstream_request http c.request c.runtime c.body c.event_id) _
        _
        (λ req built.
          result-intro (SentFor c) (c.runtime.transport.prepare_auth req) _ _
            (λ prepared authorized.
              result-intro (SentFor c) (c.runtime.transport.forward prepared) _ _
                (λ up got.
                  let (released, sent) = answer_upstream-Releases c up (some prepared) in
                  answered prepared up got sent released)
                (λ e broken. failed _ _ _ _ refl refl))
            (λ e refused. failed _ _ _ _ refl refl))
        (λ e bad. failed _ _ _ _ refl refl)

  redact_egress-Sent :
      (c : Call) → SentFor c (forward_call env http cfg (redact_egress env http cfg c))
  unfolding redact_egress
  redact_egress-Sent c =
      if-intro Later cfg.redact_egress_default _ _
        (λ on.
          if-intro Later (redact_payload cfg.default_patterns cfg.redact_patterns c.body).1 _ _
            (λ changed. forward_call-Sent _) (λ same. forward_call-Sent c))
        (λ off. forward_call-Sent c)
    where
      Later : Call → Type 0
      Later d = SentFor c (forward_call env http cfg d)

  -- Denied with nothing forwarded, or not blocked and sent on.
  abbrev pub Decides : Call → Answer → Type 0
  Decides c a =
      ((should_block env c.preflight ≡ true) × (a.forwarded ≡ none) × (is_denied a.reply ≡ true))
      ⊎ ((should_block env c.preflight ≡ false) × SentFor c a)

  -- A call is decided in one of two ways. If the commandments block its event, the client gets a 403
  -- and nothing is forwarded. Otherwise the client gets an error that is no denial, or the answer of
  -- the provider to the forwarded request is released: the client gets an error; or, if the request
  -- asked for a stream or the response is of type text/event-stream, the body of a stream that was
  -- buffered to its end and in which the commandments block no tool call; or, if neither is so, a body
  -- in which they block no tool call, or one that is empty, is no JSON or has a status of 400 and above.
  pub decide_call-IsGuarded : (c : Call) → Decides c (decide_call env http cfg c)
  unfolding decide_call forbid_request is_denied
  decide_call-IsGuarded c =
      if-intro (Decides c) (should_block env c.preflight) _ _
        (λ forbidden. inl (forbidden, refl, refl)) (λ allowed. inr (allowed, redact_egress-Sent c))
