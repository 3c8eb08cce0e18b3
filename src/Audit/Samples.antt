-- ===== src/Audit/Samples.antt =====
-- Concrete services, events and states on which the theorems are applied.
use crabwise.Common.{ℕ, none, some, [], ◌∷◌, Text, codes, length, pos}
use crabwise.Audit.Event.{AuditEvent, zero_event, action_tool_call, outcome_success}
use crabwise.Audit.Logger.{Services, EvalResult, TriggeredRule}

-- The text of a time is one byte, and the hash one of the length.
abbrev pub clock : ℕ → Text
clock t = t ∷ []

abbrev pub block_rule : TriggeredRule
block_rule = record { name = codes "no-rm"; enforcement = codes "block"; message = codes "no" }

abbrev pub blocks_rm : AuditEvent → EvalResult
blocks_rm e = record { evaluated = codes "no-rm" ∷ []; triggered = block_rule ∷ [] }

abbrev pub plain_services : Services
plain_services = record {
  evaluator = none;
  redactor = none;
  marshal_evaluated = λ names. some [];
  marshal_triggered = λ rules. some [];
  format_time = clock;
  format_date = λ t. [];
  sha256_hex = λ t. length t ∷ [];
}

abbrev pub blocking_services : Services
blocking_services = record plain_services { evaluator = some blocks_rm }

abbrev pub tool_event : Text → ℕ → AuditEvent
tool_event id t = record zero_event {
  id = id;
  timestamp = t;
  agent_id = codes "claude-code";
  action_type = action_tool_call;
  action = codes "rm";
  outcome = outcome_success;
  input_tokens = pos 12;
}

abbrev pub first_event : AuditEvent
first_event = tool_event (codes "a") 1

abbrev pub second_event : AuditEvent
second_event = tool_event (codes "b") 2
