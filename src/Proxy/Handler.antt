-- ===== src/Proxy/Handler.antt =====
-- internal/adapter/proxy/proxy.go: handleProxy up to the response of the provider: the body, the
-- route, the normalized request, the commandments, the redaction and the request that goes upstream.
pub mod Parts
pub mod Ends
pub mod Upstream
pub mod Recorded
pub mod Answered
pub mod Released
pub mod Laws
use crabwise.Common.{
  ℕ, Bool, true, false, Option, none, some, List, [], ◌∷◌, ◌++◌, Text, codes, non_empty,
  if◌then◌else◌,
}
use crabwise.Common.Result.{Result, ok, err}
use crabwise.Audit.Event.{AuditEvent, outcome_blocked}
use crabwise.Proxy.{Router, resolve}
use crabwise.Proxy.Provider.{NormalizedRequest, UpstreamRequest, ProviderRuntime}
use crabwise.Proxy.Redaction.{redact_payload}
use crabwise.Proxy.Policy.{
  Environment, Value, text, flag, append_argument_metadata, build_audit_event, should_block,
  maybe_write_raw_payload, classify_request,
}
use crabwise.Proxy.Handler.Parts.{
  count_up, count_down, Config, Request, Metrics, Answer, Reply, error, Http,
  build_upstream_request, router_message,
}
use crabwise.Proxy.Handler.Ends.{Call, count_blocked, count_upstream_error, answer, reject}
use crabwise.Proxy.Handler.Upstream.{answer_upstream}

module _ (env : Environment) (http : Http) (cfg : Config) where
  -- The redaction of what leaves: the body and the event.
  unfoldable pub redact_egress : Call → Call
  unfolding append_argument_metadata
  redact_egress c =
      let (redacted, changed) = redact_payload cfg.default_patterns cfg.redact_patterns c.body in
      if cfg.redact_egress_default
      then (if changed
          then record c {
            body = redacted;
            preflight =
                append_argument_metadata env c.preflight
                  ((codes "egress_redacted", flag true) ∷ []);
          }
          else c)
      else c

  abbrev pub failure_metadata : Call → Text → Text → List (Text × Value)
  failure_metadata c error_type message =
      (codes "request_id", text c.event_id)
      ∷ (codes "error_type", text error_type)
      ∷ (codes "error_message", text message)
      ∷ []

  abbrev pub request_failure : Call → List (Text × Value)
  request_failure c =
      (codes "request_id", text c.event_id)
      ∷ (codes "error_type", text (codes "upstream_request_error"))
      ∷ []

  -- An error with its type and its message in the event.
  unfoldable pub reject_with : Call → Metrics → Text → Text → Text → Option UpstreamRequest → Answer
  unfolding reject
  reject_with c m kind error_type message sent =
      reject env http cfg c m kind message (failure_metadata c error_type message) sent

  -- PrepareAuth and Forward. A request counts as forwarded when it is given to the transport.
  unfoldable pub send_upstream : Call → UpstreamRequest → Answer
  unfolding reject_with answer_upstream
  send_upstream c req = elim (c.runtime.transport.prepare_auth req) [
    | err e ↦ reject_with c c.metrics (codes "auth_error") (codes "auth") e none
    | ok prepared ↦ elim (c.runtime.transport.forward prepared) [
      | err e ↦
          reject_with c (count_upstream_error c.metrics) (codes "upstream_error")
            (codes "upstream_error") e (some prepared)
      | ok up ↦ answer_upstream env http cfg c up (some prepared)
    ]
  ]

  unfoldable pub forward_call : Call → Answer
  unfolding reject send_upstream
  forward_call c = elim (build_upstream_request http c.request c.runtime c.body c.event_id) [
    | err e ↦
        reject env http cfg c c.metrics (codes "upstream_request_error") e (request_failure c) none
    | ok req ↦ send_upstream c req
  ]

  unfoldable pub forbid_request : Call → Answer
  unfolding append_argument_metadata maybe_write_raw_payload
  forbid_request c =
      let e =
        append_argument_metadata env (record c.preflight { outcome = outcome_blocked })
          ((codes "request_id", text c.event_id)
            ∷ (codes "endpoint", text c.request.path)
            ∷ (codes "mapping_degraded", flag c.degraded)
            ∷ []) in
      answer c (count_blocked c.metrics)
        (error 403 (codes "policy_violation") (codes "request blocked by commandments") c.event_id)
        (maybe_write_raw_payload env e c.body ∷ []) none

  unfoldable pub decide_call : Call → Answer
  unfolding forbid_request redact_egress forward_call should_block
  decide_call c =
      if should_block env c.preflight then forbid_request c else forward_call (redact_egress c)

  -- `normalizeRequest`: the normalized request, if it is degraded, and the error.
  unfoldable pub normalize_request :
      ProviderRuntime → Text → Text → Text → NormalizedRequest × Bool × Option Text
  unfolding classify_request
  normalize_request runtime provider endpoint body =
      elim (runtime.mapping.normalize_request provider endpoint body) [
        | ok normalized ↦ (classify_request env provider normalized, false, none)
        | err e ↦ (
          record {
            provider = provider;
            endpoint = endpoint;
            model = [];
            stream = false;
            tools = [];
            input_summary = [];
            mapping_degraded = true;
          },
          true,
          some e,
        )
      ]

  -- An answer before there is an event.
  unfoldable pub early : Metrics → Reply → Answer
  early m reply = record {
    reply = reply;
    events = [];
    metrics = record m { active = count_down m.active };
    forwarded = none;
  }

  abbrev pub routed_call :
      Text → ℕ → Request → Text → ProviderRuntime → Text → NormalizedRequest → Bool → Metrics → Call
  routed_call event_id start r body runtime provider normalized degraded m = record {
    event_id = event_id;
    start = start;
    request = r;
    body = body;
    provider = provider;
    runtime = runtime;
    normalized = normalized;
    degraded = degraded;
    preflight = build_audit_event env event_id start provider normalized r.path;
    metrics = m;
  }

  unfoldable pub handle_routed :
      Text → ℕ → Metrics → Request → Text → ProviderRuntime → Text → Answer
  unfolding early normalize_request decide_call
  handle_routed event_id start m r body runtime provider =
      let (normalized, degraded, failure) = normalize_request runtime provider r.path body in
      let decide : Metrics → Answer = λ m'.
        decide_call (routed_call event_id start r body runtime provider normalized degraded m') in
      elim failure [
        | none ↦ decide m
        | some e ↦
            if cfg.mapping_strict_mode
            then early m (error 502 (codes "mapping_error") e event_id)
            else decide (record m { degraded = count_up m.degraded })
      ]

  -- `match` is path.Match, `event_id` the new identifier, `start` the time.
  unfoldable pub handle_proxy :
      (Text → Text → Option Bool) → Router → Text → ℕ → Metrics → Request → Answer
  unfolding early handle_routed
  handle_proxy match router event_id start metrics r =
      let m = record metrics { active = count_up metrics.active; total = count_up metrics.total } in
      elim r.body [
        | none ↦ early m (
            error 413 (codes "request_too_large") (codes "request body exceeds max_request_body")
              [])
        | some body ↦ elim (resolve match router r.provider_header r.path) [
          | err e ↦ early m (error 400 (codes "routing_error") (router_message e) event_id)
          | ok (runtime, provider) ↦ handle_routed event_id start m r body runtime provider
        ]
      ]
