-- ===== src/LogWatcher/Codex/Positions.antt =====
-- The identifiers of the events of a Codex message.
use crabwise.Common.{
  ℕ, suc, ◌≡◌, refl, sym, ap, ◌≢◌, ◌∙◌, false, ◌&&◌, ◌||◌, List, [], ◌∷◌, ◌++◌, Text, codes, ◌==◌,
  non_empty, trim_space, length, arith, if-intro, option-intro, if◌then◌else◌,
}
use crabwise.Audit.Event.{AuditEvent, action_ai_request}
use crabwise.LogWatcher.ClaudeCode.{Decoder, line_event, apply_tool_classification}
use crabwise.LogWatcher.Codex.Shapes.{
  CodexDecoder, CodexBlock, ResponseItem, is_text_type, is_tool_type, looks_like_tool,
  first_non_empty_raw, join_lines,
}
use crabwise.LogWatcher.Codex.Messages.{
  Place, Found, codex_event, codex_unknown_event, codex_tool_event, take_block, take_blocks,
  or_chat, add_prompt, add_chat, attach_item_usage, blocks_of, parse_message_item, tool_name_of,
}
use crabwise.LogWatcher.Numbered.{IsNumbered, IsNumbered-snoc, position}

length-snoc {ℓ} : {A : Type ℓ} (xs : List A) (x : A) → length (xs ++ (x ∷ [])) ≡ suc (length xs)
length-snoc [] x = refl
length-snoc (y ∷ xs) x = ap suc (length-snoc xs x)

snoc-≢-nil : {A : Type 0} (xs : List A) (x : A) → xs ++ (x ∷ []) ≢ []
snoc-≢-nil [] x h = cc
snoc-≢-nil (y ∷ xs) x h = cc

module _ (d : Decoder) (x : CodexDecoder) (p : Place) where
  abbrev number : ℕ → Text
  number = position d p.line p.path p.offset

  abbrev pub Good : List AuditEvent → Type 0
  Good = IsNumbered number 0

  pub one-Good : (e : AuditEvent) → e.id ≡ number 0 → Good (e ∷ [])
  unfolding IsNumbered
  one-Good e same = (same, tt)

  pub none-Good : Good []
  unfolding IsNumbered
  none-Good = tt

  codex_event-id :
      (index : ℕ) (action_type action args cwd model : Text)
      → (codex_event d x p index action_type action args cwd model).id ≡ number index
  unfolding codex_event line_event
  codex_event-id index action_type action args cwd model = refl

  pub codex_tool_event-id :
      (index : ℕ) (name raw_args model : Text)
      → (codex_tool_event d x p index name raw_args model).id ≡ number index
  unfolding codex_tool_event apply_tool_classification codex_event line_event
  codex_tool_event-id index name raw_args model = refl

  pub unknown-Good : (e : Text) → Good (codex_unknown_event d x p.path p.line e p.offset ∷ [])
  unfolding codex_unknown_event codex_event line_event
  unknown-Good e = one-Good _ refl

  -- As many events as positions.
  abbrev Counted : Found → Type 0
  Counted f = Good f.events × (f.index ≡ length f.events)

  take_block-Counted :
      (item : ResponseItem) (f : Found) (block : CodexBlock)
      → Counted f
      → Counted (take_block d x p item f block)
  unfolding take_block
  take_block-Counted item f block (good, count) =
      if-intro Counted (block.block_type == codes "input_text") _ _
        (λ input.
          if-intro Counted ((item.role == codes "user") && non_empty (trim_space block.text)) _ _
            (λ prompt. (good, count)) (λ other. (good, count)))
        (λ next.
          if-intro Counted (is_text_type block.block_type) _ _
            (λ text.
              if-intro Counted
                ((item.role == codes "assistant") && non_empty (trim_space block.text)) _ _
                (λ answer. (good, count)) (λ other. (good, count)))
            (λ last.
              if-intro Counted
                (is_tool_type block.block_type
                  || looks_like_tool (codes "text" ∷ codes "output_text" ∷ codes "input_text" ∷ [])
                      false block.block_type block.name block.tool_name
                      (first_non_empty_raw (block.arguments ∷ block.input ∷ [])))
                _ _
                (λ tool. (
                  IsNumbered-snoc number 0 f.events _ good (
                      codex_tool_event-id f.index
                        (tool_name_of d x block.name block.tool_name block.block_type)
                        (first_non_empty_raw (block.arguments ∷ block.input ∷ [])) item.model
                      ∙ ap number (ground (arith, count))),
                  ap suc count ∙ sym (length-snoc f.events _),
                ))
                (λ other. (good, count))))

  take_blocks-Counted :
      (item : ResponseItem) (blocks : List CodexBlock) (f : Found)
      → Counted f
      → Counted (take_blocks d x p item blocks f)
  unfolding take_blocks
  take_blocks-Counted item [] f counted = counted
  take_blocks-Counted item (block ∷ blocks) f counted =
      take_blocks-Counted item blocks (take_block d x p item f block)
        (take_block-Counted item f block counted)

  or_chat-Good :
      (chat : AuditEvent) (events : List AuditEvent)
      → Good events
      → (events ≡ [] → chat.id ≡ number 0)
      → Good (or_chat d x chat events)
  unfolding or_chat
  or_chat-Good chat [] good first = one-Good chat (first refl)
  or_chat-Good chat (e ∷ es) good first = good

  Prompts : Found → List AuditEvent → Type 0
  Prompts f events = Good events × (events ≡ [] → f.index ≡ 0)

  add_prompt-Prompts :
      (item : ResponseItem) (f : Found) → Counted f → Prompts f (add_prompt d x p item f)
  unfolding add_prompt Prompts
  add_prompt-Prompts item f (good, count) =
      if-intro (Prompts f)
        ((item.role == codes "user")
          && non_empty (
              if non_empty (trim_space (join_lines f.user_prompts))
              then trim_space (join_lines f.user_prompts)
              else trim_space item.text))
        _ _
        (λ asked. (
          IsNumbered-snoc number 0 f.events _ good (
              codex_event-id f.index action_ai_request (codes "chat")
                (if non_empty (trim_space (join_lines f.user_prompts))
                  then trim_space (join_lines f.user_prompts)
                  else trim_space item.text)
                [] item.model
              ∙ ap number (ground (arith, count))),
          λ h. absurd (snoc-≢-nil f.events _ h),
        ))
        (λ quiet. (good, λ h. count ∙ ap length h))

  add_chat-Good : (item : ResponseItem) (f : Found) → Counted f → Good (add_chat d x p item f)
  unfolding add_chat Prompts
  add_chat-Good item f counted =
      let (good, first) = add_prompt-Prompts item f counted in
      if-intro Good (item.role == codes "assistant") _ _
        (λ assistant. or_chat-Good _ (add_prompt d x p item f) good (λ none_asked.
          codex_event-id f.index action_ai_request (codes "chat")
            (trim_space (join_lines f.assistant_text)) [] item.model
          ∙ ap number (first none_asked)))
        (λ other. good)

  attach_item_usage-Good :
      (item : ResponseItem) (events : List AuditEvent)
      → Good events
      → Good (attach_item_usage d x item events)
  unfolding attach_item_usage IsNumbered
  attach_item_usage-Good item [] good = tt
  attach_item_usage-Good item (first ∷ rest) (head, good) =
      option-intro Good item.usage _ _ (λ no. (head, good)) (λ u yes. (head, good))

  abbrev nothing_found : Found
  nothing_found = record { events = []; user_prompts = []; assistant_text = []; index = 0 }

  pub parse_message_item-Good : (item : ResponseItem) → Good (parse_message_item d x p item)
  unfolding parse_message_item
  parse_message_item-Good item =
      if-intro Good (item.role == codes "developer") _ _ (λ developer. none-Good)
        (λ other. attach_item_usage-Good item _ (
          add_chat-Good item (take_blocks d x p item (blocks_of d x item) nothing_found)
            (take_blocks-Counted item (blocks_of d x item) nothing_found (none-Good, refl))))
