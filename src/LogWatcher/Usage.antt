-- ===== src/LogWatcher/Usage.antt =====
-- The tokens that the events of a Claude Code line report, against the usage that the message states.
use crabwise.Common.{
  ℕ, suc, ◌≡◌, refl, ap, Bool, Option, none, some, List, [], ◌∷◌, Text, codes, ◌==◌, length, nat_eq,
  keep, All, ℤ, pos, arith, Bool-cases, inl, inr, if-intro, if◌then◌else◌,
}
use crabwise.Common.Result.{ok}
use crabwise.Audit.Event.{AuditEvent}
use crabwise.LogWatcher.ClaudeCode.{
  CcRecord, CcMessage, CcUsage, ContentBlock, Decoder, apply_tool_classification, line_event,
  tool_call_event, ai_request_event, parse_content_blocks, tool_events, attach_usage,
  parse_assistant,
}

abbrev Reports : ℤ → ℤ → AuditEvent → Type 0
Reports input output e = (e.input_tokens ≡ input) × (e.output_tokens ≡ output)

abbrev AllSilent : List AuditEvent → Type 0
AllSilent events = All (Reports (pos 0) (pos 0)) events

-- Without a usage no event reports tokens; with one the first event reports it and no other does.
abbrev pub CountsOnce : Option CcUsage → List AuditEvent → Type 0
CountsOnce none events = AllSilent events
CountsOnce (some u) events =
    (first : AuditEvent) × (rest : List AuditEvent) × (events ≡ first ∷ rest)
    × Reports u.input_tokens u.output_tokens first
    × AllSilent rest

abbrev is_tool : ContentBlock → Bool
is_tool block = block.block_type == codes "tool_use"

-- An event for each tool call, and one for a usage without tool calls.
abbrev pub expected_events : Option CcUsage → List ContentBlock → ℕ
expected_events none blocks = length (keep is_tool blocks)
expected_events (some u) blocks =
    if nat_eq (length (keep is_tool blocks)) 0 then 1 else length (keep is_tool blocks)

module _ (d : Decoder) (rec : CcRecord) (line path : Text) (offset : ℕ) where
  tool_events-AllSilent :
      (msg : CcMessage) (index : ℕ) (blocks : List ContentBlock)
      → AllSilent (tool_events d rec line msg path offset index blocks)
  unfolding tool_events tool_call_event apply_tool_classification line_event
  tool_events-AllSilent msg index [] = tt
  tool_events-AllSilent msg index (block ∷ blocks) =
      if-intro AllSilent (is_tool block) _ _
        (λ tool. ((refl, refl), tool_events-AllSilent msg (suc index) blocks))
        (λ other. tool_events-AllSilent msg index blocks)

  length-tool_events :
      (msg : CcMessage) (index : ℕ) (blocks : List ContentBlock)
      → length (tool_events d rec line msg path offset index blocks) ≡ length (keep is_tool blocks)
  unfolding tool_events
  length-tool_events msg index [] = refl
  length-tool_events msg index (block ∷ blocks) = elim (Bool-cases (is_tool block)) [
    | inl tool ↦ rw tool (ap suc (length-tool_events msg (suc index) blocks))
    | inr other ↦ rw other (length-tool_events msg index blocks)
  ]

  attach_usage-CountsOnce :
      (msg : CcMessage) (blocks : List ContentBlock) (events : List AuditEvent)
      → AllSilent events
      → length events ≡ length (keep is_tool blocks)
      → CountsOnce msg.usage (attach_usage d rec line msg path offset events)
        × (length (attach_usage d rec line msg path offset events)
            ≡ expected_events msg.usage blocks)
  unfolding attach_usage ai_request_event line_event
  attach_usage-CountsOnce msg blocks events silent count = go msg.usage events silent count
    where
      go :
          (u : Option CcUsage) (es : List AuditEvent)
          → AllSilent es
          → length es ≡ length (keep is_tool blocks)
          → CountsOnce u (attach_usage d rec line (record msg { usage = u }) path offset es)
            × (length (attach_usage d rec line (record msg { usage = u }) path offset es)
                ≡ expected_events u blocks)
      go none es quiet same = (quiet, same)
      go (some u) [] quiet same = ((_, [], refl, (refl, refl), tt), ground (arith, same))
      go (some u) (first ∷ rest) (one, quiet) same =
          ((_, rest, refl, (refl, refl), quiet), ground (arith, same))

  -- A message that decodes counts its usage once: without a usage none of the events reports tokens,
  -- with one the first event reports it and the others report none. There is an event for each
  -- tool call in the content, and one event if there is a usage and no tool call.
  pub parse_assistant-CountsOnce :
      (msg : CcMessage)
      → d.unmarshal_message rec.message ≡ ok msg
      → CountsOnce msg.usage (parse_assistant d rec line path offset)
        × (length (parse_assistant d rec line path offset)
            ≡ expected_events msg.usage (parse_content_blocks d msg.content))
  unfolding parse_assistant
  parse_assistant-CountsOnce msg decoded =
      rw (parse_assistant, decoded)
        (attach_usage-CountsOnce msg (parse_content_blocks d msg.content) _
          (tool_events-AllSilent msg 0 (parse_content_blocks d msg.content))
          (length-tool_events msg 0 (parse_content_blocks d msg.content)))
