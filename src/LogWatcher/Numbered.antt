-- ===== src/LogWatcher/Numbered.antt =====
-- The identifiers of the events of a line: each is made of the file, the offset, the position of the
-- event and the line, so that reading the line again gives the same ones.
use crabwise.Common.{
  ℕ, suc, ◌+◌, ◌≡◌, refl, ap, ◌∙◌, List, [], ◌∷◌, ◌++◌, Text, codes, ◌==◌, non_empty, any, length,
  arith, if-intro, option-intro,
}
use crabwise.Common.Result.{Result, ok, result-intro}
use crabwise.Audit.Event.{AuditEvent}
use crabwise.LogWatcher.ClaudeCode.{
  CcRecord, CcMessage, ContentBlock, Decoder, deterministic_id, apply_tool_classification,
  line_event, unknown_event, system_event, tool_call_event, ai_request_event, parse_content_blocks,
  tool_events, attach_usage, parse_assistant, skipped_types, events_of_record, parse_line,
}

-- Events whose identifiers are those of consecutive positions.
unfoldable pub IsNumbered : (ℕ → Text) → ℕ → List AuditEvent → Type 0
IsNumbered number n [] = Unit {0}
IsNumbered number n (e ∷ es) = (e.id ≡ number n) × IsNumbered number (suc n) es

pub IsNumbered-snoc :
    (number : ℕ → Text) (n : ℕ) (es : List AuditEvent) (e : AuditEvent)
    → IsNumbered number n es
    → e.id ≡ number (n + length es)
    → IsNumbered number n (es ++ (e ∷ []))
unfolding IsNumbered
IsNumbered-snoc number n [] e numbered last = (last ∙ ap number (omega arith), tt)
IsNumbered-snoc number n (first ∷ es) e (head, numbered) last =
    (head, IsNumbered-snoc number (suc n) es e numbered (last ∙ ap number (omega arith)))

-- A parser's result: no error, and events that are numbered from 0.
abbrev pub Numbers : (ℕ → Text) → Result Text (List AuditEvent) → Type 0
Numbers number result =
    (events : List AuditEvent) × (result ≡ ok events) × IsNumbered number 0 events

module _ (d : Decoder) (line path : Text) (offset : ℕ) where
  abbrev pub position : ℕ → Text
  position i = deterministic_id d path offset i line

  tool_events-IsNumbered :
      (rec : CcRecord) (msg : CcMessage) (index : ℕ) (blocks : List ContentBlock)
      → IsNumbered position index (tool_events d rec line msg path offset index blocks)
  unfolding tool_events IsNumbered tool_call_event apply_tool_classification line_event
  tool_events-IsNumbered rec msg index [] = tt
  tool_events-IsNumbered rec msg index (block ∷ blocks) =
      if-intro (IsNumbered position index) (block.block_type == codes "tool_use") _ _
        (λ tool. (refl, tool_events-IsNumbered rec msg (suc index) blocks))
        (λ other. tool_events-IsNumbered rec msg index blocks)

  attach_usage-IsNumbered :
      (rec : CcRecord) (msg : CcMessage) (events : List AuditEvent)
      → IsNumbered position 0 events
      → IsNumbered position 0 (attach_usage d rec line msg path offset events)
  unfolding attach_usage IsNumbered ai_request_event line_event
  attach_usage-IsNumbered rec msg [] numbered =
      option-intro (IsNumbered position 0) msg.usage _ _ (λ no. tt) (λ u yes. (refl, tt))
  attach_usage-IsNumbered rec msg (first ∷ rest) (head, numbered) =
      option-intro (IsNumbered position 0) msg.usage _ _ (λ no. (head, numbered))
        (λ u yes. (head, numbered))

  unknown_event-IsNumbered :
      (e : Text) → IsNumbered position 0 (unknown_event d path line e offset ∷ [])
  unfolding unknown_event line_event IsNumbered
  unknown_event-IsNumbered e = (refl, tt)

  parse_assistant-IsNumbered :
      (rec : CcRecord) → IsNumbered position 0 (parse_assistant d rec line path offset)
  unfolding parse_assistant
  parse_assistant-IsNumbered rec =
      result-intro (IsNumbered position 0) (d.unmarshal_message rec.message) _ _
        (λ msg decoded.
          attach_usage-IsNumbered rec msg _
            (tool_events-IsNumbered rec msg 0 (parse_content_blocks d msg.content)))
        (λ e failed. unknown_event-IsNumbered e)

  events_of_record-IsNumbered :
      (rec : CcRecord) → IsNumbered position 0 (events_of_record d rec line path offset)
  unfolding events_of_record system_event line_event IsNumbered
  events_of_record-IsNumbered rec =
      if-intro (IsNumbered position 0) (rec.record_type == codes "assistant") _ _
        (λ assistant. parse_assistant-IsNumbered rec)
        (λ other.
          if-intro (IsNumbered position 0) (rec.record_type == codes "system") _ _
            (λ system. (refl, tt))
            (λ third.
              if-intro (IsNumbered position 0) (any (λ t. rec.record_type == t) (skipped_types d)) _
                _ (λ skipped. tt)
                (λ rest.
                  if-intro (IsNumbered position 0) (non_empty rec.record_type) _ _
                    (λ named. unknown_event-IsNumbered (codes "unknown type: " ++ rec.record_type))
                    (λ empty. unknown_event-IsNumbered (codes "empty type")))))

  pub parse_line-Numbers : Numbers position (parse_line d line path offset)
  unfolding parse_line
  parse_line-Numbers =
      if-intro (Numbers position) (non_empty line) _ _
        (λ some_line.
          result-intro (Numbers position) (d.unmarshal_record line) _ _
            (λ rec decoded. (_, refl, events_of_record-IsNumbered rec))
            (λ e failed. (_, refl, unknown_event-IsNumbered e)))
        (λ empty. ([], refl, unfold IsNumbered in tt))
