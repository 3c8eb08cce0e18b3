-- ===== src/Commandments/Service.antt =====
-- internal/daemon/commandments_runtime.go and gate.go: the commandments as the daemon uses them, by
-- the logger, by the proxy and by the gate.
pub mod Laws
use crabwise.Common.{
  ℕ, ◌≡◌, Bool, true, false, Option, none, some, List, [], ◌∷◌, ◌++◌, map, Text, codes, ◌==◌,
  equal_fold, if◌then◌else◌, length,
}
use crabwise.Common.Result.{Result, ok, err, ◌>>=◌}
use crabwise.Audit.Event.{AuditEvent, zero_event, action_tool_call, outcome_blocked}
use crabwise.Audit.Logger.{Services, EvalResult, TriggeredRule}
use crabwise.Commandments.{Host}
use crabwise.Commandments.Engine.{CompiledRule, evaluate}
use crabwise.Commandments.Redaction.{Redactor, redact}

-- The loop that finds the first triggered rule whose enforcement is "block" in any case.
unfoldable pub first_block : List TriggeredRule → Option TriggeredRule
first_block [] = none
first_block (t ∷ ts) = if equal_fold t.enforcement (codes "block") then some t else first_block ts

module _ (host : Host) where
  -- The logger with the engine and the redactor set; `base` gives the rest.
  pub with_commandments : List (CompiledRule host) → Redactor host → Services → Services
  with_commandments rules redactor base = record base {
    evaluator = some (evaluate host rules);
    redactor = some (redact host redactor);
  }

pub record GateTargets : Type 0 where
  pub argv : List Text
  pub paths : List Text
  pub path_mode : Text

pub record GateEvaluateParams : Type 0 where
  pub agent_id : Text
  pub tool_name : Text
  pub tool_category : Text
  pub tool_effect : Text
  pub targets : GateTargets

pub record GateEvaluateResult : Type 0 where
  pub gate_event_id : Text
  pub decision : Text
  pub commandment_id : Text
  pub reason : Text
  pub enforcement : Text

-- strings.Join
unfoldable pub join : List Text → Text → Text
join [] sep = []
join (part ∷ []) sep = part
join (part ∷ next ∷ parts) sep = part ++ (sep ++ join (next ∷ parts) sep)

-- json.Marshal of the map with the keys argv, command, paths and path_mode.
abbrev pub Marshal : Type 0
Marshal = List Text → Text → List Text → Text → Text

unfoldable pub gate_event : Marshal → Text → ℕ → GateEvaluateParams → AuditEvent
unfolding join
gate_event marshal event_id now params = record zero_event {
  id = event_id;
  timestamp = now;
  agent_id = params.agent_id;
  action_type = action_tool_call;
  action = params.tool_name;
  tool_name = params.tool_name;
  tool_category = params.tool_category;
  tool_effect = params.tool_effect;
  arguments =
      marshal params.targets.argv (join params.targets.argv (codes " ")) params.targets.paths
        params.targets.path_mode;
  adapter_id = codes "gate";
  adapter_type = codes "gate";
}

-- The result of the handler, and what it emits.
unfoldable pub gate_decision :
    Text → AuditEvent → Option TriggeredRule → GateEvaluateResult × List AuditEvent
gate_decision event_id e none = (
  record {
    gate_event_id = event_id;
    decision = codes "pass";
    commandment_id = [];
    reason = [];
    enforcement = [];
  },
  [],
)
gate_decision event_id e (some t) = (
  record {
    gate_event_id = event_id;
    decision = codes "block";
    commandment_id = t.name;
    reason = t.message;
    enforcement = codes "block";
  },
  record e { outcome = outcome_blocked } ∷ [],
)

-- The gate.evaluate handler, after its parameters are decoded.
unfoldable pub gate_evaluate :
    Marshal
    → (AuditEvent → EvalResult)
    → Text
    → ℕ
    → GateEvaluateParams
    → GateEvaluateResult × List AuditEvent
unfolding first_block gate_event gate_decision
gate_evaluate marshal eval event_id now params =
    let e = gate_event marshal event_id now params in
    gate_decision event_id e (first_block (eval e).triggered)
