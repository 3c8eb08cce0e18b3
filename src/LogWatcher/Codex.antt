-- ===== src/LogWatcher/Codex.antt =====
-- internal/adapter/logwatcher/codexcli.go: a line of a Codex session and the audit events it stands
-- for. The models of the sessions, which later lines rely on, are the state. What a line's types and
-- texts are taken for is in Codex/Shapes.
pub mod Shapes
pub mod Messages
pub mod Positions
pub mod Numbered
use crabwise.Common.{
  ℕ, suc, Bool, true, false, not, ◌&&◌, ◌||◌, Option, none, some, List, [], ◌∷◌, ◌++◌, Text, codes,
  ◌==◌, non_empty, trim_space, to_lower, trim_suffix, has_prefix, has_suffix, contains, any, keep,
  Map, lookup, insert, ℤ, if◌then◌else◌,
}
use crabwise.Common.Result.{Result, ok, err}
use crabwise.Audit.Event.{
  AuditEvent, action_tool_call, action_ai_request, action_system, action_unknown, outcome_failure,
}
use crabwise.LogWatcher.ClaudeCode.{
  Decoder, CcUsage, parse_line, line_event, parse_timestamp, apply_tool_classification,
}
use crabwise.LogWatcher.{Parser, parse_line_for_source}
use crabwise.LogWatcher.Codex.Shapes.{
  CodexEnvelope, SessionMeta, ResponseItem, CodexBlock, EventMsg, TurnContext, TokenCount,
  CodexDecoder, text_block, parser_version, first_non_empty, first_non_empty_raw, is_tool_type,
  is_ignored_response_type, is_denied_tool_like_type, looks_like_tool, normalize_raw_json,
  parse_codex_blocks, session_id_of, marshal_map, join_lines, is_text_type,
}
use crabwise.LogWatcher.Codex.Messages.{
  Place, Found, codex_event, codex_unknown_event, unknown, codex_tool_event, with_usage,
  tool_name_of, tool_event_from_response_item, parse_message_item,
}

-- The models of the sessions; a key is a session or, without one, a file.
abbrev pub Models : Type 0
Models = Map Text

session_key : Text → Text → Text
session_key path session_id = if non_empty session_id then session_id else path

unfoldable pub set_session_model : Text → Text → Text → Models → Models
unfolding session_key
set_session_model path session_id model models =
    if non_empty (trim_space model)
    then insert (session_key path session_id) (trim_space model) models
    else models

unfoldable pub get_session_model : Text → Text → Models → Text
unfolding session_key
get_session_model path session_id models = elim (lookup (session_key path session_id) models) [
  | none ↦ []
  | some model ↦ model
]

module _ (d : Decoder) (x : CodexDecoder) where
  unfoldable pub parse_session_meta : Models → Place → Text → Models × List AuditEvent
  unfolding codex_unknown_event codex_event set_session_model marshal_map
  parse_session_meta models p payload = elim (x.unmarshal_meta payload) [
    | err e ↦ (models, unknown d x p e)
    | ok meta ↦
        let session_id = if non_empty meta.id then meta.id else p.session_id in
        let args = marshal_map x (
          (codes "cli_version", meta.cli_version)
          ∷ (codes "model_provider", meta.model_provider)
          ∷ []) in
        (
          if non_empty meta.model
              then set_session_model p.path session_id meta.model models
              else models,
          codex_event d x (record p { session_id = session_id }) 0 action_system
                (codes "session_meta") args meta.cwd meta.model
              ∷ [],
        )
  ]

  unfoldable pub known_item : Place → ResponseItem → List AuditEvent
  unfolding is_ignored_response_type is_denied_tool_like_type parse_message_item
      tool_event_from_response_item codex_unknown_event
  known_item p item =
      if is_ignored_response_type item.item_type || is_denied_tool_like_type item.item_type
      then []
      else if item.item_type == codes "message"
      then parse_message_item d x p item
      else elim (tool_event_from_response_item d x p item) [
        | some e ↦ e ∷ []
        | none ↦ unknown d x p (codes "unknown response_item payload.type: " ++ item.item_type)
      ]

  unfoldable pub parse_response_item : Models → Place → Text → List AuditEvent
  unfolding known_item codex_unknown_event get_session_model
  parse_response_item models p payload = elim (x.unmarshal_item payload) [
    | err e ↦ unknown d x p e
    | ok item ↦ known_item p (record item {
      model =
          if non_empty item.model then item.model else get_session_model p.path p.session_id models;
    })
  ]

  abbrev or_else : Option ℤ → ℤ → ℤ
  or_else (some n) m = n
  or_else none m = m

  unfoldable pub parse_token_count : Models → Place → Text → List AuditEvent
  unfolding codex_unknown_event codex_event get_session_model
  parse_token_count models p payload = elim (x.unmarshal_tokens payload) [
    | err e ↦ unknown d x p e
    | ok tc ↦
        let model =
          if non_empty tc.model then tc.model else get_session_model p.path p.session_id models in
        record (codex_event d x p 0 action_ai_request (codes "token_count") [] [] model) {
          input_tokens = or_else tc.usage_input tc.input_tokens;
          output_tokens = or_else tc.usage_output tc.output_tokens;
        }
        ∷ []
  ]

  unfoldable pub parse_turn_context : Models → Place → Text → Models × List AuditEvent
  unfolding codex_unknown_event codex_event set_session_model marshal_map
  parse_turn_context models p payload = elim (x.unmarshal_turn payload) [
    | err e ↦ (models, unknown d x p e)
    | ok tc ↦ (
      if non_empty tc.model then set_session_model p.path p.session_id tc.model models else models,
      codex_event d x p 0 action_system (codes "turn_context")
            (marshal_map x ((codes "approval_policy", tc.approval_policy) ∷ [])) tc.cwd tc.model
          ∷ [],
    )
  ]

  unfoldable pub parse_event_msg : Place → Text → List AuditEvent
  unfolding codex_unknown_event codex_event first_non_empty
  parse_event_msg p payload = elim (x.unmarshal_msg payload) [
    | err e ↦ unknown d x p e
    | ok msg ↦
        if msg.msg_type == codes "turn_aborted"
        then record (codex_event d x p 0 action_system (codes "turn_aborted")
            (first_non_empty (msg.reason ∷ msg.message ∷ [])) [] []) { outcome = outcome_failure }
          ∷ []
        else []
  ]

  unfoldable pub parse_envelope : Models → Place → CodexEnvelope → Models × List AuditEvent
  unfolding parse_session_meta parse_response_item parse_token_count parse_turn_context
      parse_event_msg codex_unknown_event
  parse_envelope models p env =
      if env.envelope_type == codes "session_meta"
      then parse_session_meta models p env.payload
      else if env.envelope_type == codes "response_item"
      then (models, parse_response_item models p env.payload)
      else if env.envelope_type == codes "token_count"
      then (models, parse_token_count models p env.payload)
      else if env.envelope_type == codes "turn_context"
      then parse_turn_context models p env.payload
      else if env.envelope_type == codes "event_msg"
      then (models, parse_event_msg p env.payload)
      else (models, unknown d x p (codes "unknown type: " ++ env.envelope_type))

  unfoldable pub parse_codex_line :
      Models → Text → Text → ℕ → Models × Result Text (List AuditEvent)
  unfolding parse_envelope session_id_of parse_timestamp codex_unknown_event
  parse_codex_line models line path offset =
      if non_empty line
      then elim (x.unmarshal_envelope line) [
        | err e ↦ (models, ok (codex_unknown_event d x path line e offset ∷ []))
        | ok env ↦
            let p : Place = record {
              path = path;
              session_id = session_id_of d x path;
              timestamp = parse_timestamp d env.timestamp;
              offset = offset;
              line = line;
            } in
            let (next, events) = parse_envelope models p env in (next, ok events)
      ]
      else (models, ok [])

-- ParseLineForSource with the two parsers; Claude Code's has no state.
unfoldable pub source_parser : Decoder → CodexDecoder → (Text → Option Text) → Parser Models
unfolding parse_codex_line parse_line parse_line_for_source
source_parser d x record_type =
    parse_line_for_source record_type (parse_codex_line d x)
      (λ models line path offset. (models, parse_line d line path offset))
