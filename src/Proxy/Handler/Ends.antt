-- ===== src/Proxy/Handler/Ends.antt =====
-- internal/adapter/proxy/proxy.go: the ways in which handleProxy ends: an error, a denied tool call, a
-- response with its figures; and the variables that lead there.
use crabwise.Common.{
  ℕ, Bool, true, ◌||◌, Option, none, some, List, [], ◌∷◌, ◌++◌, Text, codes, non_empty, leb, nat_eq,
  pos, if◌then◌else◌,
}
use crabwise.Audit.Event.{AuditEvent, outcome_blocked, outcome_failure, outcome_success}
use crabwise.Proxy.Provider.{
  NormalizedRequest, NormalizedResponse, UpstreamRequest, Chunk, line, idle, failed,
  ProviderRuntime,
}
use crabwise.Proxy.Policy.{
  Environment, Value, text, flag, number, append_argument_metadata, maybe_write_raw_payload,
}
use crabwise.Proxy.Handler.Parts.{
  count_up, count_down, Config, Request, Metrics, Answer, Reply, error, Http, compute_cost,
  normalize_error_type,
}

-- The variables of one request after it is routed.
pub record Call : Type 0 where
  pub event_id : Text
  pub start : ℕ
  pub request : Request
  pub body : Text
  pub provider : Text
  pub runtime : ProviderRuntime
  pub normalized : NormalizedRequest
  pub degraded : Bool
  pub preflight : AuditEvent
  pub metrics : Metrics

-- What ReadAll gives of a body, and its error.
unfoldable pub read_all : List Chunk → Text × Option Text
read_all [] = ([], none)
read_all (line bytes ∷ chunks) = let (rest, e) = read_all chunks in (bytes ++ rest, e)
read_all (idle ∷ chunks) = read_all chunks
read_all (failed e ∷ chunks) = ([], some e)

abbrev pub zero_response : ℕ → Bool → NormalizedResponse
zero_response status degraded = record {
  model = [];
  finish_reason = [];
  input_tokens = pos 0;
  output_tokens = pos 0;
  upstream_status = status;
  error_type = [];
  error_message = [];
  mapping_degraded = degraded;
}

-- The deferred decrement.
abbrev pub answer : Call → Metrics → Reply → List AuditEvent → Option UpstreamRequest → Answer
answer c m reply events sent = record {
  reply = reply;
  events = events;
  metrics = record m { active = count_down m.active };
  forwarded = sent;
}

abbrev pub count_blocked : Metrics → Metrics
count_blocked m = record m { blocked = count_up m.blocked }

abbrev pub count_upstream_error : Metrics → Metrics
count_upstream_error m = record m { upstream_errors = count_up m.upstream_errors }

-- What a failed write of a stream leaves; the writer's error counts as one of the provider.
unfoldable pub written : Option Text → Metrics → NormalizedResponse → Metrics × NormalizedResponse
written none m norm = (m, norm)
written (some e) m norm =
    (count_upstream_error m, record norm { error_type = codes "write_error"; error_message = e })

unfoldable pub write_error : Option Text → NormalizedResponse → NormalizedResponse
write_error none norm = norm
write_error (some e) norm = record norm { error_type = codes "write_error"; error_message = e }

abbrev pub mapping_failed : Text → NormalizedResponse → NormalizedResponse
mapping_failed e norm = record norm {
  mapping_degraded = true;
  error_type = codes "mapping_error";
  error_message = codes "response mapping failed: " ++ e;
}

abbrev pub read_failed : Text → NormalizedResponse → NormalizedResponse
read_failed e norm = record norm { error_type = codes "read_error"; error_message = e }

module _ (env : Environment) (http : Http) (cfg : Config) where
  -- The request is answered with an error, and its event is a failure.
  unfoldable pub reject :
      Call → Metrics → Text → Text → List (Text × Value) → Option UpstreamRequest → Answer
  unfolding append_argument_metadata
  reject c m kind message kv sent =
      let e = record c.preflight { outcome = outcome_failure } in
      answer c m (error 502 kind message c.event_id) ((append_argument_metadata env e kv) ∷ []) sent

  abbrev pub reject_plain : Call → Metrics → Text → Text → Option UpstreamRequest → Answer
  reject_plain c m kind message sent =
      answer c m (error 502 kind message c.event_id)
        (record c.preflight { outcome = outcome_failure } ∷ []) sent

  -- A tool call of the response is blocked: its event and the event of the request.
  unfoldable pub forbid_tool : Call → Text → AuditEvent → Text → Option UpstreamRequest → Answer
  unfolding append_argument_metadata
  forbid_tool c enforcement tool name sent =
      answer c (count_blocked c.metrics)
        (error 403 (codes "policy_violation") (codes "tool_use blocked by commandment: " ++ name)
          c.event_id)
        (tool
          ∷ append_argument_metadata env (record c.preflight { outcome = outcome_blocked })
              ((codes "blocked_commandment", text name)
                ∷ (codes "enforcement", text enforcement)
                ∷ [])
          ∷ [])
        sent

  abbrev when : Bool → Text → Value → List (Text × Value)
  when test k v = if test then (k, v) ∷ [] else []

  settled_metadata : Call → NormalizedResponse → ℕ → Bool → ℕ → List (Text × Value)
  settled_metadata c norm status unknown_model first_token_at =
      (codes "request_id", text c.event_id)
      ∷ (codes "endpoint", text c.request.path)
      ∷ (codes "upstream_status", number (pos status))
      ∷ (codes "mapping_degraded", flag norm.mapping_degraded)
      ∷ (when (non_empty norm.finish_reason) (codes "finish_reason") (text norm.finish_reason)
          ++ (when (non_empty norm.error_type) (codes "error_type")
                (text (normalize_error_type norm.error_type status))
              ++ (when (non_empty norm.error_message) (codes "error_message")
                    (text norm.error_message)
                  ++ (when unknown_model (codes "cost_unknown_model") (flag true)
                      ++ (if nat_eq first_token_at 0
                          then []
                          else (
                            codes "first_token_ms",
                            number (http.milliseconds c.start first_token_at),
                          )
                            ∷ [])))))

  -- The end of the handler: the event gets the figures of the response and its outcome.
  unfoldable pub settled_event : Call → NormalizedResponse → ℕ → ℕ → AuditEvent
  unfolding settled_metadata append_argument_metadata
  settled_event c norm status first_token_at =
      let model = if non_empty norm.model then norm.model else c.preflight.model in
      let cost = compute_cost http cfg.pricing model norm.input_tokens norm.output_tokens in
      append_argument_metadata env
        (record c.preflight {
          model = model;
          input_tokens = norm.input_tokens;
          output_tokens = norm.output_tokens;
          cost_usd = cost.cost_usd;
          outcome =
              if leb 400 status || non_empty norm.error_type
              then outcome_failure
              else if non_empty c.preflight.outcome
              then c.preflight.outcome
              else outcome_success;
        })
        (settled_metadata c norm status cost.unknown_model first_token_at)

  unfoldable pub settle :
      Call → Metrics → NormalizedResponse → ℕ → ℕ → Reply → Option UpstreamRequest → Answer
  unfolding settled_event maybe_write_raw_payload
  settle c m norm status first_token_at reply sent =
      answer c m reply
        (maybe_write_raw_payload env (settled_event c norm status first_token_at) c.body ∷ []) sent
