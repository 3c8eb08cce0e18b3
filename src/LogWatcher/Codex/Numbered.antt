-- ===== src/LogWatcher/Codex/Numbered.antt =====
-- The identifiers of the events of a Codex line, and of any line that the log watcher reads.
use crabwise.Common.{
  ℕ, ◌≡◌, refl, ◌∙◌, true, ◌||◌, Option, none, some, List, [], ◌∷◌, ◌++◌, Text, codes, ◌==◌,
  non_empty, if-intro, if◌then◌else◌,
}
use crabwise.Common.Result.{Result, result-intro}
use crabwise.Audit.Event.{AuditEvent}
use crabwise.LogWatcher.{is_codex_source, looks_like_codex_line, parse_line_for_source}
use crabwise.LogWatcher.ClaudeCode.{CcUsage, Decoder, line_event, parse_timestamp}
use crabwise.LogWatcher.Codex.Shapes.{
  CodexDecoder, CodexEnvelope, ResponseItem, is_tool_type, looks_like_tool,
  is_ignored_response_type, is_denied_tool_like_type, first_non_empty_raw, session_id_of,
}
use crabwise.LogWatcher.Codex.{
  Models, parse_session_meta, known_item, parse_response_item, parse_token_count,
  parse_turn_context, parse_event_msg, parse_envelope, parse_codex_line, source_parser,
  get_session_model,
}
use crabwise.LogWatcher.Codex.Messages.{
  Place, codex_event, codex_unknown_event, tool_event_from_response_item, tool_name_of, with_usage,
}
use crabwise.LogWatcher.Codex.Positions.{
  Good, one-Good, none-Good, codex_tool_event-id, unknown-Good, parse_message_item-Good,
}
use crabwise.LogWatcher.Numbered.{Numbers, position, parse_line-Numbers}

module _ (d : Decoder) (x : CodexDecoder) (p : Place) where
  -- What is done with a response item that may be a tool call.
  abbrev item_events : ResponseItem → Option AuditEvent → List AuditEvent
  item_events item o = elim o [
    | some e ↦ e ∷ []
    | none ↦
        codex_unknown_event d x p.path p.line
          (codes "unknown response_item payload.type: " ++ item.item_type) p.offset
        ∷ []
  ]

  with_usage-id : (u : Option CcUsage) (e : AuditEvent) → (with_usage d x u e).id ≡ e.id
  with_usage-id none e = refl
  with_usage-id (some u) e = refl

  tool_item-Good :
      (item : ResponseItem)
      → Good d x p (item_events item (tool_event_from_response_item d x p item))
  unfolding tool_event_from_response_item
  tool_item-Good item =
      if-intro (λ (o : Option AuditEvent). Good d x p (item_events item o))
        (is_tool_type item.item_type
          || looks_like_tool (codes "message" ∷ []) true item.item_type item.name item.tool_name
              (first_non_empty_raw (item.arguments ∷ item.input ∷ [])))
        _ _
        (λ tool. one-Good d x p _ (
          with_usage-id item.usage _
          ∙ codex_tool_event-id d x p 0 (tool_name_of d x item.name item.tool_name item.item_type)
              (first_non_empty_raw (item.arguments ∷ item.input ∷ [])) item.model))
        (λ other.
          unknown-Good d x p (codes "unknown response_item payload.type: " ++ item.item_type))

  known_item-Good : (item : ResponseItem) → Good d x p (known_item d x p item)
  unfolding known_item
  known_item-Good item =
      if-intro (Good d x p)
        (is_ignored_response_type item.item_type || is_denied_tool_like_type item.item_type) _ _
        (λ ignored. none-Good d x p)
        (λ kept.
          if-intro (Good d x p) (item.item_type == codes "message") _ _
            (λ message. parse_message_item-Good d x p item) (λ other. tool_item-Good item))

  parse_response_item-Good :
      (models : Models) (payload : Text) → Good d x p (parse_response_item d x models p payload)
  unfolding parse_response_item
  parse_response_item-Good models payload =
      result-intro (Good d x p) (x.unmarshal_item payload) _ _
        (λ item decoded. known_item-Good (record item {
          model =
              if non_empty item.model
              then item.model
              else get_session_model p.path p.session_id models;
        }))
        (λ e failed. unknown-Good d x p e)

  parse_token_count-Good :
      (models : Models) (payload : Text) → Good d x p (parse_token_count d x models p payload)
  unfolding parse_token_count codex_event line_event
  parse_token_count-Good models payload =
      result-intro (Good d x p) (x.unmarshal_tokens payload) _ _
        (λ tc decoded. one-Good d x p _ refl) (λ e failed. unknown-Good d x p e)

  parse_event_msg-Good : (payload : Text) → Good d x p (parse_event_msg d x p payload)
  unfolding parse_event_msg codex_event line_event
  parse_event_msg-Good payload =
      result-intro (Good d x p) (x.unmarshal_msg payload) _ _
        (λ msg decoded.
          if-intro (Good d x p) (msg.msg_type == codes "turn_aborted") _ _
            (λ aborted. one-Good d x p _ refl) (λ other. none-Good d x p))
        (λ e failed. unknown-Good d x p e)

  abbrev GoodStep : Models × List AuditEvent → Type 0
  GoodStep step = Good d x p step.1

  parse_session_meta-Good :
      (models : Models) (payload : Text) → GoodStep (parse_session_meta d x models p payload)
  unfolding parse_session_meta codex_event line_event
  parse_session_meta-Good models payload =
      result-intro GoodStep (x.unmarshal_meta payload) _ _ (λ m decoded. one-Good d x p _ refl)
        (λ e failed. unknown-Good d x p e)

  parse_turn_context-Good :
      (models : Models) (payload : Text) → GoodStep (parse_turn_context d x models p payload)
  unfolding parse_turn_context codex_event line_event
  parse_turn_context-Good models payload =
      result-intro GoodStep (x.unmarshal_turn payload) _ _ (λ tc decoded. one-Good d x p _ refl)
        (λ e failed. unknown-Good d x p e)

  parse_envelope-Good :
      (models : Models) (env : CodexEnvelope) → GoodStep (parse_envelope d x models p env)
  unfolding parse_envelope
  parse_envelope-Good models env =
      if-intro GoodStep (env.envelope_type == codes "session_meta") _ _
        (λ t. parse_session_meta-Good models env.payload)
        (λ n.
          if-intro GoodStep (env.envelope_type == codes "response_item") _ _
            (λ t. parse_response_item-Good models env.payload)
            (λ n.
              if-intro GoodStep (env.envelope_type == codes "token_count") _ _
                (λ t. parse_token_count-Good models env.payload)
                (λ n.
                  if-intro GoodStep (env.envelope_type == codes "turn_context") _ _
                    (λ t. parse_turn_context-Good models env.payload)
                    (λ n.
                      if-intro GoodStep (env.envelope_type == codes "event_msg") _ _
                        (λ t. parse_event_msg-Good env.payload)
                        (λ n. unknown-Good d x p (codes "unknown type: " ++ env.envelope_type))))))

module _ (d : Decoder) (x : CodexDecoder) where
  parse_codex_line-Numbers :
      (models : Models) (line path : Text) (offset : ℕ)
      → Numbers (position d line path offset) (parse_codex_line d x models line path offset).1
  unfolding parse_codex_line
  parse_codex_line-Numbers models line path offset =
      if-intro NumbersStep (non_empty line) _ _
        (λ some_line.
          result-intro NumbersStep (x.unmarshal_envelope line) _ _
            (λ env decoded. (_, refl, parse_envelope-Good d x (place env) models env))
            (λ e failed. (_, refl, unknown-Good d x at_zero e)))
        (λ empty. ([], refl, none-Good d x at_zero))
    where
      NumbersStep : Models × Result Text (List AuditEvent) → Type 0
      NumbersStep step = Numbers (position d line path offset) step.1

      place : CodexEnvelope → Place
      place env = record {
        path = path;
        session_id = session_id_of d x path;
        timestamp = parse_timestamp d env.timestamp;
        offset = offset;
        line = line;
      }

      at_zero : Place
      at_zero = record { path = path; session_id = []; timestamp = 0; offset = offset; line = line }

  -- Whatever a line is, reading it succeeds, and the identifier of the i-th event of the line is the
  -- digest of the file, the offset of the line, i and the line, whatever models are remembered.
  pub source_parser-Numbers :
      (record_type : Text → Option Text) (models : Models) (line path : Text) (offset : ℕ)
      → Numbers
          (position d line path offset)
          (source_parser d x record_type models line path offset).1
  unfolding source_parser parse_line_for_source
  source_parser-Numbers record_type models line path offset =
      if-intro
        (λ (step : Models × Result Text (List AuditEvent)).
          Numbers (position d line path offset) step.1)
        (is_codex_source path || looks_like_codex_line record_type line) _ _
        (λ codex. parse_codex_line-Numbers models line path offset)
        (λ claude. parse_line-Numbers d line path offset)
