-- ===== src/Audit/Canonical.antt =====
-- internal/audit/events.go: the canonical bytes of an event and its hash. The layout of a time and
-- the hash function are those of packages time and crypto/sha256, and are arguments here.
pub mod Fields
pub mod Injective
use crabwise.Common.{
  ℕ, zero, suc, ◌+◌, ◌*◌, ◌/◌, ◌%◌, ◌^◌, Bool, true, false, List, [], ◌∷◌, ◌++◌, Text, length, ℤ,
  to_uint64,
}
use crabwise.Audit.Event.{AuditEvent}

-- binary.BigEndian: the `n` low bytes of `v`, the most significant first.
pub big_endian : ℕ → ℕ → Text
big_endian zero v = []
big_endian (suc n) v = big_endian n (v / 256) ++ (v % 256) ∷ []

pub append_string : Text → Text → Text
append_string buf s = (buf ++ big_endian 4 (length s % 2 ^ 32)) ++ s

pub append_int : Text → ℤ → Text
append_int buf v = buf ++ big_endian 8 (to_uint64 v)

-- `bits` is math.Float64bits of the value.
pub append_float : Text → ℕ → Text
append_float buf bits = buf ++ big_endian 8 bits

pub append_bool : Text → Bool → Text
append_bool buf true = buf ++ 1 ∷ []
append_bool buf false = buf ++ 0 ∷ []

module _ (format_time : ℕ → Text) where
  pub append_time : Text → ℕ → Text
  unfolding append_string
  append_time buf t = append_string buf (format_time t)

  unfoldable pub canonical_bytes : AuditEvent → Text
  unfolding append_string append_int append_float append_bool append_time big_endian
  canonical_bytes e =
      let buf : Text = [] in
      let buf₁ = append_string buf e.id in
      let buf₂ = append_time buf₁ e.timestamp in
      let buf₃ = append_string buf₂ e.agent_id in
      let buf₄ = append_int buf₃ e.agent_pid in
      let buf₅ = append_string buf₄ e.action_type in
      let buf₆ = append_string buf₅ e.action in
      let buf₇ = append_string buf₆ e.arguments in
      let buf₈ = append_string buf₇ e.session_id in
      let buf₉ = append_string buf₈ e.parent_session_id in
      let buf₁₀ = append_string buf₉ e.working_dir in
      let buf₁₁ = append_string buf₁₀ e.parser_version in
      let buf₁₂ = append_string buf₁₁ e.outcome in
      let buf₁₃ = append_string buf₁₂ e.commandments_evaluated in
      let buf₁₄ = append_string buf₁₃ e.commandments_triggered in
      let buf₁₅ = append_string buf₁₄ e.provider in
      let buf₁₆ = append_string buf₁₅ e.model in
      let buf₁₇ = append_string buf₁₆ e.tool_category in
      let buf₁₈ = append_string buf₁₇ e.tool_effect in
      let buf₁₉ = append_string buf₁₈ e.tool_name in
      let buf₂₀ = append_string buf₁₉ e.taxonomy_version in
      let buf₂₁ = append_string buf₂₀ e.classification_source in
      let buf₂₂ = append_int buf₂₁ e.input_tokens in
      let buf₂₃ = append_int buf₂₂ e.output_tokens in
      let buf₂₄ = append_float buf₂₃ e.cost_usd in
      let buf₂₅ = append_string buf₂₄ e.adapter_id in
      let buf₂₆ = append_string buf₂₅ e.adapter_type in
      let buf₂₇ = append_string buf₂₆ e.raw_payload_ref in
      let buf₂₈ = append_string buf₂₇ e.hostname in
      let buf₂₉ = append_string buf₂₈ e.user_id in
      let buf₃₀ = append_string buf₂₉ e.prev_hash in append_bool buf₃₀ e.redacted

  -- fmt.Sprintf("%x") of SHA-256 over the canonical bytes and the previous hash.
  unfoldable pub compute_hash : (Text → Text) → AuditEvent → Text → Text
  unfolding canonical_bytes
  compute_hash sha256_hex e prev_hash = sha256_hex (canonical_bytes e ++ prev_hash)
