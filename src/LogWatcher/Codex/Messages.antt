-- ===== src/LogWatcher/Codex/Messages.antt =====
-- internal/adapter/logwatcher/codexcli.go: the events of a Codex line, and those of a message with its
-- prompts, answers and tool calls.
use crabwise.Common.{
  ℕ, suc, true, false, ◌&&◌, ◌||◌, Option, none, some, List, [], ◌∷◌, ◌++◌, Text, codes, ◌==◌,
  non_empty, trim_space, if◌then◌else◌,
}
use crabwise.Audit.Event.{
  AuditEvent, action_tool_call, action_ai_request, action_unknown, outcome_failure,
}
use crabwise.LogWatcher.ClaudeCode.{Decoder, CcUsage, line_event, apply_tool_classification}
use crabwise.LogWatcher.Codex.Shapes.{
  ResponseItem, CodexBlock, CodexDecoder, text_block, parser_version, first_non_empty,
  first_non_empty_raw, is_tool_type, looks_like_tool, normalize_raw_json, parse_codex_blocks,
  session_id_of, join_lines, is_text_type,
}

-- Where the line stands: the variables that parseCodexLine passes on.
pub record Place : Type 0 where
  pub path : Text
  pub session_id : Text
  pub timestamp : ℕ
  pub offset : ℕ
  pub line : Text

-- The variables of the loop over the blocks of a message.
pub record Found : Type 0 where
  pub events : List AuditEvent
  pub user_prompts : List Text
  pub assistant_text : List Text
  pub index : ℕ

module _ (d : Decoder) (x : CodexDecoder) where
  unfoldable pub codex_event : Place → ℕ → Text → Text → Text → Text → Text → AuditEvent
  unfolding line_event
  codex_event p index action_type action args cwd model =
      record (line_event d (codes "codex-cli") p.path p.offset index p.line p.timestamp
        parser_version) {
          session_id = p.session_id;
          action_type = action_type;
          action = action;
          arguments = args;
          working_dir = cwd;
          model = model;
        }

  unfoldable pub codex_unknown_event : Text → Text → Text → ℕ → AuditEvent
  unfolding codex_event session_id_of
  codex_unknown_event path line parse_error offset =
      let p : Place = record {
        path = path;
        session_id = session_id_of d x path;
        timestamp = d.now;
        offset = offset;
        line = line;
      } in
      record (codex_event p 0 action_unknown (codes "unknown")
        (codes "parse_error: " ++ parse_error) [] []) { outcome = outcome_failure }

  abbrev pub unknown : Place → Text → List AuditEvent
  unknown p e = codex_unknown_event p.path p.line e p.offset ∷ []

  -- The event of a tool call with its classification.
  unfoldable pub codex_tool_event : Place → ℕ → Text → Text → Text → AuditEvent
  unfolding codex_event normalize_raw_json first_non_empty apply_tool_classification
  codex_tool_event p index name raw_args model =
      apply_tool_classification d
        (codex_event p index action_tool_call name
          (first_non_empty (normalize_raw_json x raw_args ∷ [])) [] model)
        (codes "openai") name raw_args

  abbrev pub with_usage : Option CcUsage → AuditEvent → AuditEvent
  with_usage none e = e
  with_usage (some u) e = record e {
    input_tokens = u.input_tokens;
    output_tokens = u.output_tokens;
  }

  unfoldable pub tool_name_of : Text → Text → Text → Text
  unfolding first_non_empty
  tool_name_of name tool_name type =
      let given = trim_space (first_non_empty (name ∷ tool_name ∷ [])) in
      if non_empty given then given else trim_space type

  unfoldable pub tool_event_from_response_item : Place → ResponseItem → Option AuditEvent
  unfolding codex_tool_event first_non_empty_raw tool_name_of is_tool_type looks_like_tool
  tool_event_from_response_item p item =
      let raw_args = first_non_empty_raw (item.arguments ∷ item.input ∷ []) in
      if is_tool_type item.item_type
        || looks_like_tool (codes "message" ∷ []) true item.item_type item.name item.tool_name
            raw_args
      then some (
          with_usage item.usage (
            codex_tool_event p 0 (tool_name_of item.name item.tool_name item.item_type) raw_args
              item.model))
      else none

  -- One block of a message.
  unfoldable pub take_block : Place → ResponseItem → Found → CodexBlock → Found
  unfolding codex_tool_event first_non_empty_raw tool_name_of is_tool_type looks_like_tool
      is_text_type
  take_block p item f block =
      let raw_args = first_non_empty_raw (block.arguments ∷ block.input ∷ []) in
      if block.block_type == codes "input_text"
      then (if (item.role == codes "user") && non_empty (trim_space block.text)
          then record f { user_prompts = f.user_prompts ++ (block.text ∷ []) }
          else f)
      else if is_text_type block.block_type
      then (if (item.role == codes "assistant") && non_empty (trim_space block.text)
          then record f { assistant_text = f.assistant_text ++ (block.text ∷ []) }
          else f)
      else if is_tool_type block.block_type
          || looks_like_tool (codes "text" ∷ codes "output_text" ∷ codes "input_text" ∷ []) false
              block.block_type block.name block.tool_name raw_args
      then record f {
        events =
            f.events
            ++ (codex_tool_event p f.index
                  (tool_name_of block.name block.tool_name block.block_type) raw_args item.model
                ∷ []);
        index = suc f.index;
      }
      else f

  unfoldable pub take_blocks : Place → ResponseItem → List CodexBlock → Found → Found
  unfolding take_block
  take_blocks p item [] f = f
  take_blocks p item (block ∷ blocks) f = take_blocks p item blocks (take_block p item f block)

  unfoldable pub blocks_of : ResponseItem → List CodexBlock
  unfolding parse_codex_blocks
  blocks_of item = elim (parse_codex_blocks x item.content) [
    | [] ↦ if non_empty item.text then text_block item.text ∷ [] else []
    | block ∷ blocks ↦ block ∷ blocks
  ]

  unfoldable pub or_chat : AuditEvent → List AuditEvent → List AuditEvent
  or_chat chat [] = chat ∷ []
  or_chat chat (e ∷ es) = e ∷ es

  abbrev pub chat_event : Place → ResponseItem → ℕ → Text → AuditEvent
  chat_event p item index text =
      codex_event p index action_ai_request (codes "chat") text [] item.model

  -- The prompt of a user.
  unfoldable pub add_prompt : Place → ResponseItem → Found → List AuditEvent
  unfolding codex_event join_lines
  add_prompt p item f =
      let joined = trim_space (join_lines f.user_prompts) in
      let prompt = if non_empty joined then joined else trim_space item.text in
      if (item.role == codes "user") && non_empty prompt
      then f.events ++ (chat_event p item f.index prompt ∷ [])
      else f.events

  -- The answer of an assistant that called no tool.
  unfoldable pub add_chat : Place → ResponseItem → Found → List AuditEvent
  unfolding codex_event join_lines or_chat add_prompt
  add_chat p item f =
      if item.role == codes "assistant"
      then or_chat (chat_event p item f.index (trim_space (join_lines f.assistant_text)))
          (add_prompt p item f)
      else add_prompt p item f

  unfoldable pub attach_item_usage : ResponseItem → List AuditEvent → List AuditEvent
  attach_item_usage item [] = []
  attach_item_usage item (first ∷ rest) = elim item.usage [
    | none ↦ first ∷ rest
    | some u ↦
        record first {
          input_tokens = u.input_tokens;
          output_tokens = u.output_tokens;
          model = if non_empty first.model then first.model else item.model;
        }
        ∷ rest
  ]

  unfoldable pub parse_message_item : Place → ResponseItem → List AuditEvent
  unfolding blocks_of take_blocks add_chat attach_item_usage
  parse_message_item p item =
      if item.role == codes "developer"
      then []
      else attach_item_usage item (
          add_chat p item (
            take_blocks p item (blocks_of item)
              (record { events = []; user_prompts = []; assistant_text = []; index = 0 })))
