-- ===== src/LogWatcher/ClaudeCode.antt =====
-- internal/adapter/logwatcher/claudecode.go and classifier.go: a line of a Claude Code session and
-- the audit events it stands for. JSON, SHA-256, times and file names are the packages'.
use crabwise.Common.{
  ℕ, suc, ◌||◌, Option, none, some, List, [], ◌∷◌, ◌++◌, Text, codes, ◌==◌, non_empty, trim_suffix,
  decimal, any, ℤ, if◌then◌else◌,
}
use crabwise.Common.Result.{Result, ok, err}
use crabwise.Audit.Event.{
  AuditEvent, zero_event, action_tool_call, action_ai_request, action_system, action_unknown,
  action_command_execution, action_file_access, outcome_success,
}
use crabwise.Classify.{ClassifyResult}

pub record CcRecord : Type 0 where
  pub record_type : Text
  pub timestamp : Text
  pub cwd : Text
  pub message : Text

pub record CcUsage : Type 0 where
  pub input_tokens : ℤ
  pub output_tokens : ℤ

pub record ContentBlock : Type 0 where
  pub block_type : Text
  pub name : Text
  pub input : Text

-- `content` is what Marshal makes of the content, `none` if there is none.
pub record CcMessage : Type 0 where
  pub model : Text
  pub content : Option Text
  pub usage : Option CcUsage

-- The packages. `digest` is the first twelve bytes of SHA-256 in hexadecimal; the two layouts are
-- those of parseTimestamp.
pub record Decoder : Type 0 where
  pub unmarshal_record : Text → Result Text CcRecord
  pub unmarshal_message : Text → Result Text CcMessage
  pub unmarshal_blocks : Text → Option (List ContentBlock)
  pub digest : Text → Text
  pub parse_nano : Text → Option ℕ
  pub parse_millis : Text → Option ℕ
  pub now : ℕ
  pub base : Text → Text
  pub ext : Text → Text
  pub classify : Text → Text → List Text → ClassifyResult
  pub extract_arg_keys : Text → List Text

abbrev pub parser_version : Text
parser_version = codes "cc-parser-v0.1"

unfoldable pub action_type_for_tool_category : Text → Text
action_type_for_tool_category category =
    if category == codes "shell" || category == codes "code.exec"
    then action_command_execution
    else if any (λ name. category == name)
        (codes "file.read" ∷ codes "file.write" ∷ codes "file.edit" ∷ codes "file.search" ∷ [])
    then action_file_access
    else action_tool_call

module _ (d : Decoder) where
  unfoldable pub deterministic_id : Text → ℕ → ℕ → Text → Text
  deterministic_id source_file line_offset suffix line =
      d.digest (source_file ++ (58 ∷ decimal line_offset) ++ (58 ∷ decimal suffix) ++ (58 ∷ line))

  unfoldable pub parse_timestamp : Text → ℕ
  parse_timestamp ts = elim (d.parse_nano ts) [
    | some t ↦ t
    | none ↦ elim (d.parse_millis ts) [ some t ↦ t | none ↦ d.now ]
  ]

  unfoldable pub session_id_of : Text → Text
  session_id_of path =
      if d.ext (d.base path) == codes ".jsonl"
      then trim_suffix (d.base path) (d.ext (d.base path))
      else d.base path

  unfoldable pub apply_tool_classification : AuditEvent → Text → Text → Text → AuditEvent
  unfolding action_type_for_tool_category
  apply_tool_classification e provider tool_name raw_args =
      let c = d.classify provider tool_name (d.extract_arg_keys raw_args) in
      record e {
        provider = provider;
        tool_name = tool_name;
        tool_category = c.category;
        tool_effect = c.effect;
        taxonomy_version = c.taxonomy_version;
        classification_source = c.classification_source;
        action_type = action_type_for_tool_category c.category;
      }

  -- The fields that every event of a line has.
  unfoldable pub line_event : Text → Text → ℕ → ℕ → Text → ℕ → Text → AuditEvent
  unfolding deterministic_id session_id_of
  line_event agent path offset index line ts version = record zero_event {
    id = deterministic_id path offset index line;
    timestamp = ts;
    agent_id = agent;
    parser_version = version;
    outcome = outcome_success;
    adapter_id = codes "log-watcher";
    adapter_type = codes "log_watcher";
  }

  abbrev cc_event : Text → ℕ → ℕ → Text → ℕ → AuditEvent
  cc_event path offset index line ts =
      record (line_event (codes "claude-code") path offset index line ts parser_version) {
        session_id = session_id_of path;
      }

  unfoldable pub unknown_event : Text → Text → Text → ℕ → AuditEvent
  unfolding line_event session_id_of
  unknown_event path line parse_error offset = record (cc_event path offset 0 line d.now) {
    action_type = action_unknown;
    action = codes "unknown";
    arguments = codes "parse_error: " ++ parse_error;
  }

  unfoldable pub system_event : CcRecord → Text → Text → ℕ → AuditEvent
  unfolding line_event session_id_of parse_timestamp
  system_event rec line path offset =
      record (cc_event path offset 0 line (parse_timestamp rec.timestamp)) {
        action_type = action_system;
        action = codes "system";
      }

  unfoldable pub tool_call_event :
      CcRecord → Text → CcMessage → ContentBlock → Text → ℕ → ℕ → AuditEvent
  unfolding line_event session_id_of parse_timestamp apply_tool_classification
  tool_call_event rec line msg block path offset index =
      apply_tool_classification
        (record (cc_event path offset index line (parse_timestamp rec.timestamp)) {
          action_type = action_tool_call;
          action = block.name;
          arguments = block.input;
          working_dir = rec.cwd;
          model = msg.model;
        })
        (codes "anthropic") block.name block.input

  unfoldable pub ai_request_event : CcRecord → Text → CcMessage → CcUsage → Text → ℕ → AuditEvent
  unfolding line_event session_id_of parse_timestamp
  ai_request_event rec line msg usage path offset =
      record (cc_event path offset 0 line (parse_timestamp rec.timestamp)) {
        action_type = action_ai_request;
        action = codes "chat";
        working_dir = rec.cwd;
        model = msg.model;
        input_tokens = usage.input_tokens;
        output_tokens = usage.output_tokens;
      }

  unfoldable pub parse_content_blocks : Option Text → List ContentBlock
  parse_content_blocks none = []
  parse_content_blocks (some raw) = elim (d.unmarshal_blocks raw) [
    | some blocks ↦ blocks
    | none ↦ []
  ]

  -- The loop over the blocks; `index` is toolIdx.
  unfoldable pub tool_events :
      CcRecord → Text → CcMessage → Text → ℕ → ℕ → List ContentBlock → List AuditEvent
  unfolding tool_call_event
  tool_events rec line msg path offset index [] = []
  tool_events rec line msg path offset index (block ∷ blocks) =
      if block.block_type == codes "tool_use"
      then tool_call_event rec line msg block path offset index
        ∷ tool_events rec line msg path offset (suc index) blocks
      else tool_events rec line msg path offset index blocks

  -- The usage goes to the first event, or to an event of its own.
  unfoldable pub attach_usage :
      CcRecord → Text → CcMessage → Text → ℕ → List AuditEvent → List AuditEvent
  unfolding ai_request_event
  attach_usage rec line msg path offset events = elim msg.usage [
    | none ↦ events
    | some u ↦ elim events [
      | [] ↦ ai_request_event rec line msg u path offset ∷ []
      | first ∷ rest ↦
          record first {
            input_tokens = u.input_tokens;
            output_tokens = u.output_tokens;
            model = msg.model;
          }
          ∷ rest
    ]
  ]

  unfoldable pub parse_assistant : CcRecord → Text → Text → ℕ → List AuditEvent
  unfolding unknown_event parse_content_blocks tool_events attach_usage
  parse_assistant rec line path offset = elim (d.unmarshal_message rec.message) [
    | err e ↦ unknown_event path line e offset ∷ []
    | ok msg ↦
        attach_usage rec line msg path offset
          (tool_events rec line msg path offset 0 (parse_content_blocks msg.content))
  ]

  abbrev pub skipped_types : List Text
  skipped_types =
      codes "user"
      ∷ codes "queue-operation"
      ∷ codes "file-history-snapshot"
      ∷ codes "summary"
      ∷ codes "progress"
      ∷ []

  unfoldable pub events_of_record : CcRecord → Text → Text → ℕ → List AuditEvent
  unfolding parse_assistant system_event unknown_event
  events_of_record rec line path offset =
      if rec.record_type == codes "assistant"
      then parse_assistant rec line path offset
      else if rec.record_type == codes "system"
      then system_event rec line path offset ∷ []
      else if any (λ t. rec.record_type == t) skipped_types
      then []
      else if non_empty rec.record_type
      then unknown_event path line (codes "unknown type: " ++ rec.record_type) offset ∷ []
      else unknown_event path line (codes "empty type") offset ∷ []

  unfoldable pub parse_line : Text → Text → ℕ → Result Text (List AuditEvent)
  unfolding events_of_record unknown_event
  parse_line line path offset =
      if non_empty line
      then elim (d.unmarshal_record line) [
        | err e ↦ ok (unknown_event path line e offset ∷ [])
        | ok rec ↦ ok (events_of_record rec line path offset)
      ]
      else ok []
