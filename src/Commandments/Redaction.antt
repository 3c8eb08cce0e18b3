-- ===== src/Commandments/Redaction.antt =====
-- internal/commandments/redaction.go: the redaction of an event's arguments.
pub mod Laws
use crabwise.Common.{
  ℕ, ◌+◌, ◌-◌, Bool, true, false, ◌&&◌, ◌||◌, List, [], ◌∷◌, ◌++◌, Text, codes, length, take, drop,
  leb, ltb, if◌then◌else◌,
}
use crabwise.Audit.Event.{AuditEvent}
use crabwise.Commandments.{Host, max_redactions_per_field, max_redaction_field_bytes}

abbrev pub redaction_replacement : Text
redaction_replacement = codes "[REDACTED]"

abbrev pub oversized_marker : Text
oversized_marker = codes "[REDACTED_OVERSIZE_TRUNCATED]"

abbrev pub oversized_preview_size : ℕ
oversized_preview_size = 256

-- `in[from:to]`
abbrev pub slice : Text → ℕ → ℕ → Text
slice s from to = take (to - from) (drop from s)

unfoldable pub truncate_oversized : Text → Text
truncate_oversized s =
    let preview =
      if ltb oversized_preview_size (length s) then take oversized_preview_size s else s in
    preview ++ (codes "..." ++ oversized_marker)

-- The loop over the matches from `prev` on, and the rest of the text.
unfoldable pub splice : Text → ℕ → List (ℕ × ℕ) → Text
splice s prev [] = drop prev s
splice s prev ((start, end) ∷ ms) = slice s prev start ++ (redaction_replacement ++ splice s end ms)

-- (out, anyChanged, remaining)
pub record Applied : Type 0 where
  pub out : Text
  pub changed : Bool
  pub remaining : ℕ

module _ (host : Host) where
  open host use {Regex, find_all}

  pub record Redactor : Type 0 where
    pub always_on : List Regex
    pub rule_triggered : List Regex

  replace_matches : Text → List (ℕ × ℕ) → Text × ℕ
  unfolding splice
  replace_matches s [] = (s, 0)
  replace_matches s (m ∷ ms) = (splice s 0 (m ∷ ms), length (m ∷ ms))

  unfoldable pub replace_with_limit : Text → Regex → ℕ → Text × ℕ
  unfolding replace_matches
  replace_with_limit s re limit =
      let ms = find_all re s (limit + 1) in
      if leb limit 0
      then (s, 0)
      else replace_matches s (if ltb limit (length ms) then take limit ms else ms)

  apply_pattern : Applied → Text × ℕ → Applied
  apply_pattern a (next, replaced) =
      if ltb 0 replaced
      then record { out = next; changed = true; remaining = a.remaining - replaced }
      else a

  -- The loop of `applyPatterns`; it breaks when no replacement remains.
  unfoldable pub apply_loop : List Regex → Applied → Applied
  unfolding apply_pattern replace_with_limit
  apply_loop [] a = a
  apply_loop (re ∷ res) a =
      let next = apply_loop res (apply_pattern a (replace_with_limit a.out re a.remaining)) in
      if leb a.remaining 0 then a else next

  unfoldable pub apply_patterns : Text → List Regex → ℕ → Applied
  unfolding apply_loop
  apply_patterns s patterns remaining =
      apply_loop patterns (record { out = s; changed = false; remaining = remaining })

  -- The second stage of `Redact`, for an event that triggered a rule.
  redact_triggered : Redactor → Bool → Applied → Applied
  unfolding apply_patterns
  redact_triggered r triggered first =
      if triggered && ltb 0 first.remaining
      then apply_patterns first.out r.rule_triggered first.remaining
      else record first { changed = false }

  unfoldable pub redact : Redactor → AuditEvent → Bool → AuditEvent
  unfolding truncate_oversized apply_patterns redact_triggered
  redact r evt triggered =
      let oversized = ltb max_redaction_field_bytes (length evt.arguments) in
      let value = if oversized then truncate_oversized evt.arguments else evt.arguments in
      let first = apply_patterns value r.always_on max_redactions_per_field in
      let second = redact_triggered r triggered first in
      if oversized || (first.changed || second.changed)
      then record evt { arguments = second.out; redacted = true }
      else evt
