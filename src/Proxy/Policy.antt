-- ===== src/Proxy/Policy.antt =====
-- internal/adapter/proxy/proxy.go: the audit events of the proxy and the evaluation of the
-- commandments on them. JSON objects are maps of values; encoding/json and the interfaces that the
-- proxy is built over are an environment.
pub mod Laws
use crabwise.Common.{
  ℕ, suc, Bool, true, false, Option, none, some, List, [], ◌∷◌, map, Text, codes, ◌==◌, non_empty,
  trim_space, trim_prefix, Map, insert, length, ltb, ℤ, if◌then◌else◌,
}
use crabwise.Audit.Event.{
  AuditEvent, zero_event, action_ai_request, action_tool_call, outcome_success, outcome_blocked,
}
use crabwise.Audit.Logger.{EvalResult, TriggeredRule}
use crabwise.Classify.{ClassifyResult}
use crabwise.OpenClaw.{MatchResult}
use crabwise.Commandments.Service.{first_block}
use crabwise.Proxy.Provider.{ToolTargets, ToolUseBlock, NormalizedTool, NormalizedRequest}

-- A value of a JSON object; `other` is what was there before.
pub data Value : Type 0 where
  text other : Text → Value
  flag : Bool → Value
  number : ℤ → Value
  targets : ToolTargets → Value
  tools : List (Text × Text × Text) → Value

-- What the proxy is built over. The evaluator, the attributor and the raw payload writer are nil
-- until they are set; a write gives the reference, `none` on an error. `uuid` and `clock` are the
-- values of the n-th reading.
pub record Environment : Type 0 where
  pub evaluator : Option (AuditEvent → EvalResult)
  pub classify : Text → Text → List Text → ClassifyResult
  pub extract_arg_keys : Text → List Text
  pub attributor : Option (ℕ → Text → Text → Option MatchResult)
  pub raw_payloads : Option (Text → Text → Option Text)
  pub unmarshal_object : Text → Map Value
  pub marshal_object : Map Value → Option Text
  pub uuid : ℕ → Text
  pub clock : ℕ → ℕ

unfoldable pub endpoint_action : Text → Text
endpoint_action endpoint =
    if endpoint == codes "/v1/chat/completions"
    then codes "chat.completions.create"
    else if endpoint == codes "/v1/responses"
    then codes "responses.create"
    else trim_prefix endpoint (codes "/")

unfoldable pub insert_all : Map Value → Map Value → Map Value
insert_all [] existing = existing
insert_all ((k, v) ∷ kv) existing = insert_all kv (insert k v existing)

abbrev or_keep : Option Text → Text → Text
or_keep (some new) old = new
or_keep none old = old

module _ (env : Environment) where
  open env use {
    evaluator, classify, extract_arg_keys, attributor, raw_payloads, unmarshal_object,
    marshal_object, uuid, clock,
  }

  existing_of : Text → Map Value
  existing_of arguments =
      if non_empty (trim_space arguments) then unmarshal_object arguments else []

  -- The source returns at once for an empty map, which no call passes.
  unfoldable pub append_argument_metadata : AuditEvent → Map Value → AuditEvent
  unfolding insert_all existing_of
  append_argument_metadata e kv = record e {
    arguments = or_keep (marshal_object (insert_all kv (existing_of e.arguments))) e.arguments;
  }

  unfoldable pub attributed_match : MatchResult → AuditEvent → AuditEvent
  unfolding append_argument_metadata
  attributed_match m e =
      append_argument_metadata
        (record e {
          agent_id = if non_empty m.agent_id then m.agent_id else e.agent_id;
          session_id = m.session_key;
          parent_session_id = m.parent_session;
          model =
              if non_empty e.model then e.model else if non_empty m.model then m.model else e.model;
        })
        ((codes "openclaw.run_id", text m.run_id)
          ∷ (codes "openclaw.session_key", text m.session_key)
          ∷ (codes "openclaw.agent_id", text m.agent_id)
          ∷ (codes "openclaw.thinking_level", text m.thinking_level)
          ∷ (
            codes "openclaw.correlation_confidence",
            text (if non_empty m.session_key then codes "high" else codes "low"),
          )
          ∷ [])

  unfoldable pub attribute : ℕ → Text → Text → AuditEvent → AuditEvent
  unfolding attributed_match
  attribute ts provider model e = elim attributor [
    | none ↦ e
    | some find ↦ elim (find ts provider model) [ none ↦ e | some m ↦ attributed_match m e ]
  ]

  unfoldable pub first_tool : List NormalizedTool → AuditEvent → AuditEvent
  first_tool [] e = e
  first_tool (first ∷ rest) e = record e {
    tool_name = first.name;
    tool_category = first.category;
    tool_effect = first.effect;
    taxonomy_version = first.taxonomy_version;
    classification_source = first.classification_source;
  }

  unfoldable pub tools_summary : List NormalizedTool → AuditEvent → AuditEvent
  unfolding append_argument_metadata
  tools_summary ts e =
      if ltb 1 (length ts)
      then append_argument_metadata e (
          (codes "tools", tools (map (λ (t : NormalizedTool). (t.name, t.category, t.effect)) ts))
          ∷ [])
      else e

  unfoldable pub build_audit_event : Text → ℕ → Text → NormalizedRequest → Text → AuditEvent
  unfolding attribute first_tool tools_summary endpoint_action
  build_audit_event event_id ts provider req endpoint =
      let e = record zero_event {
        id = event_id;
        timestamp = ts;
        agent_id = codes "proxy";
        action_type = action_ai_request;
        action = endpoint_action endpoint;
        outcome = outcome_success;
        provider = provider;
        model = req.model;
        adapter_id = codes "proxy";
        adapter_type = codes "proxy";
      } in
      tools_summary req.tools (first_tool req.tools (attribute ts provider req.model e))

  unfoldable pub should_block : AuditEvent → Bool
  should_block e = elim evaluator [
    | none ↦ false
    | some eval ↦ elim (first_block (eval e).triggered) [ none ↦ false | some t ↦ true ]
  ]

  -- The event of the n-th tool block.
  unfoldable pub tool_event : ℕ → ToolUseBlock → Text → Text → AuditEvent
  unfolding append_argument_metadata
  tool_event n block provider model =
      let c = classify provider block.tool_name (extract_arg_keys block.tool_input) in
      append_argument_metadata
        (record zero_event {
          id = uuid n;
          timestamp = clock n;
          agent_id = codes "proxy";
          action_type = action_tool_call;
          action = block.tool_name;
          provider = provider;
          model = model;
          tool_name = block.tool_name;
          tool_category = c.category;
          tool_effect = c.effect;
          taxonomy_version = c.taxonomy_version;
          classification_source = c.classification_source;
          adapter_id = codes "proxy";
          adapter_type = codes "proxy";
        })
        ((codes "tool_call_id", text block.id)
          ∷ (codes "tool_input", other block.tool_input)
          ∷ (codes "targets", targets block.targets)
          ∷ [])

  -- The event to emit and the name of the rule, if a block is blocked.
  unfoldable pub evaluate_blocks :
      (AuditEvent → EvalResult) → ℕ → List ToolUseBlock → Text → Text → Option (AuditEvent × Text)
  unfolding tool_event
  evaluate_blocks eval n [] provider model = none
  evaluate_blocks eval n (block ∷ blocks) provider model =
      let e = tool_event n block provider model in
      elim (first_block (eval e).triggered) [
        | some t ↦ some (record e { outcome = outcome_blocked }, t.name)
        | none ↦ evaluate_blocks eval (suc n) blocks provider model
      ]

  unfoldable pub evaluate_tool_use_blocks :
      List ToolUseBlock → Text → Text → Option (AuditEvent × Text)
  unfolding evaluate_blocks
  evaluate_tool_use_blocks blocks provider model = elim evaluator [
    | none ↦ none
    | some eval ↦ evaluate_blocks eval 0 blocks provider model
  ]

  unfoldable pub maybe_write_raw_payload : AuditEvent → Text → AuditEvent
  maybe_write_raw_payload e body = elim raw_payloads [
    | none ↦ e
    | some write ↦
        if non_empty body
        then elim (write e.id body) [
          | none ↦ e
          | some ref ↦ record e {
            raw_payload_ref = if non_empty ref then ref else e.raw_payload_ref;
          }
        ]
        else e
  ]

  unfoldable pub classify_tools : Text → List NormalizedTool → List NormalizedTool
  classify_tools provider [] = []
  classify_tools provider (tool ∷ rest) =
      let keys = extract_arg_keys tool.raw_args in
      let c = classify provider tool.name keys in
      record tool {
        arg_keys = keys;
        category = c.category;
        effect = c.effect;
        taxonomy_version = c.taxonomy_version;
        classification_source = c.classification_source;
      }
      ∷ classify_tools provider rest

  -- The tools of a normalized request with their classification.
  unfoldable pub classify_request : Text → NormalizedRequest → NormalizedRequest
  unfolding classify_tools
  classify_request provider req = record req { tools = classify_tools provider req.tools }
