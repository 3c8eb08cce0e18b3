-- ===== src/Audit/Canonical/Fields.antt =====
-- The fields that the canonical bytes cover, in the order of the struct, and their encoding.
use crabwise.Common.{
  ℕ, Bool, List, [], ◌∷◌, ◌++◌, Text, ℤ, ◌≡◌, refl, sym, ◌∙◌, append_assoc, append-nil, foldl, ap,
  true, false,
}
use crabwise.Audit.Event.{AuditEvent}
use crabwise.Audit.Canonical.{append_string, append_int, append_float, append_bool, canonical_bytes}

pub data Field : Type 0 where
  text : Text → Field
  int : ℤ → Field
  float : ℕ → Field
  bool : Bool → Field

unfoldable pub append_field : Text → Field → Text
append_field buf (text s) = append_string buf s
append_field buf (int v) = append_int buf v
append_field buf (float v) = append_float buf v
append_field buf (bool v) = append_bool buf v

unfoldable pub encode : List Field → Text
encode [] = []
encode (f ∷ fs) = append_field [] f ++ encode fs

append_field-append : (buf : Text) (f : Field) → append_field buf f ≡ buf ++ append_field [] f
unfolding append_field append_string append_int append_float append_bool
append_field-append buf (text s) = append_assoc buf _ s
append_field-append buf (int v) = refl
append_field-append buf (float v) = refl
append_field-append buf (bool true) = refl
append_field-append buf (bool false) = refl

foldl-append_field : (buf : Text) (fs : List Field) → foldl append_field buf fs ≡ buf ++ encode fs
unfolding encode
foldl-append_field buf [] = sym (append-nil buf)
foldl-append_field buf (f ∷ fs) =
    foldl-append_field (append_field buf f) fs
    ∙ ap (λ b. b ++ encode fs) (append_field-append buf f)
    ∙ append_assoc buf (append_field [] f) (encode fs)

module _ (format_time : ℕ → Text) where
  -- Every field but the event hash and the two that are not persisted.
  abbrev pub hashed_fields : AuditEvent → List Field
  hashed_fields e =
      text e.id
      ∷ text (format_time e.timestamp)
      ∷ text e.agent_id
      ∷ int e.agent_pid
      ∷ text e.action_type
      ∷ text e.action
      ∷ text e.arguments
      ∷ text e.session_id
      ∷ text e.parent_session_id
      ∷ text e.working_dir
      ∷ text e.parser_version
      ∷ text e.outcome
      ∷ text e.commandments_evaluated
      ∷ text e.commandments_triggered
      ∷ text e.provider
      ∷ text e.model
      ∷ text e.tool_category
      ∷ text e.tool_effect
      ∷ text e.tool_name
      ∷ text e.taxonomy_version
      ∷ text e.classification_source
      ∷ int e.input_tokens
      ∷ int e.output_tokens
      ∷ float e.cost_usd
      ∷ text e.adapter_id
      ∷ text e.adapter_type
      ∷ text e.raw_payload_ref
      ∷ text e.hostname
      ∷ text e.user_id
      ∷ text e.prev_hash
      ∷ bool e.redacted
      ∷ []

  pub canonical_bytes-encode :
      (e : AuditEvent) → canonical_bytes format_time e ≡ encode (hashed_fields e)
  unfolding append_field canonical_bytes
  canonical_bytes-encode e = foldl-append_field [] (hashed_fields e)
