-- ===== src/Audit/Event.antt =====
-- internal/audit/events.go: the event shared by all adapters, with the strings that name its
-- action types and outcomes. A time is its Unix time in nanoseconds; a float64 is its bit pattern.
use crabwise.Common.{ℕ, Bool, Text, codes, ℤ, pos, false, []}

abbrev pub action_tool_call : Text
action_tool_call = codes "tool_call"

abbrev pub action_file_access : Text
action_file_access = codes "file_access"

abbrev pub action_command_execution : Text
action_command_execution = codes "command_execution"

abbrev pub action_ai_request : Text
action_ai_request = codes "ai_request"

abbrev pub action_system : Text
action_system = codes "system"

abbrev pub action_unknown : Text
action_unknown = codes "unknown"

abbrev pub outcome_success : Text
outcome_success = codes "success"

abbrev pub outcome_failure : Text
outcome_failure = codes "failure"

abbrev pub outcome_blocked : Text
outcome_blocked = codes "blocked"

abbrev pub outcome_warned : Text
outcome_warned = codes "warned"

pub record AuditEvent : Type 0 where
  pub id : Text
  pub timestamp : ℕ
  pub agent_id : Text
  pub agent_pid : ℤ
  pub action_type : Text
  pub action : Text
  pub arguments : Text
  pub session_id : Text
  pub parent_session_id : Text
  pub working_dir : Text
  pub parser_version : Text
  pub outcome : Text
  pub commandments_evaluated : Text
  pub commandments_triggered : Text
  pub provider : Text
  pub model : Text
  pub tool_category : Text
  pub tool_effect : Text
  pub tool_name : Text
  pub taxonomy_version : Text
  pub classification_source : Text
  pub input_tokens : ℤ
  pub output_tokens : ℤ
  pub cost_usd : ℕ
  pub adapter_id : Text
  pub adapter_type : Text
  pub raw_payload_ref : Text
  pub hostname : Text
  pub user_id : Text
  pub prev_hash : Text
  pub event_hash : Text
  pub redacted : Bool
  pub source_file : Text
  pub source_offset : ℤ

-- The zero value of the struct.
abbrev pub zero_event : AuditEvent
zero_event = record {
  id = [];
  timestamp = 0;
  agent_id = [];
  agent_pid = pos 0;
  action_type = [];
  action = [];
  arguments = [];
  session_id = [];
  parent_session_id = [];
  working_dir = [];
  parser_version = [];
  outcome = [];
  commandments_evaluated = [];
  commandments_triggered = [];
  provider = [];
  model = [];
  tool_category = [];
  tool_effect = [];
  tool_name = [];
  taxonomy_version = [];
  classification_source = [];
  input_tokens = pos 0;
  output_tokens = pos 0;
  cost_usd = 0;
  adapter_id = [];
  adapter_type = [];
  raw_payload_ref = [];
  hostname = [];
  user_id = [];
  prev_hash = [];
  event_hash = [];
  redacted = false;
  source_file = [];
  source_offset = pos 0;
}

-- What is persisted: all but the two transport fields.
abbrev pub row_of : AuditEvent → AuditEvent
row_of e = record e { source_file = []; source_offset = pos 0 }
