-- ===== src/Proxy/Redaction.antt =====
-- internal/adapter/proxy/redaction.go: the redaction of what leaves for the provider. A pattern is
-- what it finds in a text, as package regexp gives it: the bounds of its matches in order.
use crabwise.Common.{
  ℕ, ◌+◌, ◌-◌, Bool, false, not, ◌||◌, List, [], ◌∷◌, ◌++◌, Text, ◌==◌, non_empty, length, take,
  leb, if◌then◌else◌,
}
use crabwise.Commandments.Redaction.{splice}

abbrev pub max_redactions_per_field : ℕ
max_redactions_per_field = 50

-- The variables `redacted`, `changed` and `replacements`.
pub record Redacted : Type 0 where
  pub redacted : Text
  pub changed : Bool
  pub replacements : ℕ

abbrev Finder : Type 0
Finder = Text → List (ℕ × ℕ)

-- ReplaceAllStringFunc with the closure that counts.
unfoldable pub replace_all : Finder → Redacted → Redacted
unfolding splice
replace_all find r =
    let taken = take (max_redactions_per_field - r.replacements) (find r.redacted) in
    let next = splice r.redacted 0 taken in
    record {
      redacted = next;
      changed = r.changed || not (next == r.redacted);
      replacements = r.replacements + length taken;
    }

unfoldable pub redact_loop : List Finder → Redacted → Redacted
unfolding replace_all
redact_loop [] r = r
redact_loop (find ∷ finders) r =
    let rest = redact_loop finders (replace_all find r) in
    if leb max_redactions_per_field r.replacements then r else rest

unfoldable pub redact_payload : List Finder → List Finder → Text → Text × Bool
unfolding redact_loop
redact_payload defaults extra raw =
    let r =
      redact_loop (defaults ++ extra)
        (record { redacted = raw; changed = false; replacements = 0 }) in
    if non_empty raw then (r.redacted, r.changed) else (raw, false)
