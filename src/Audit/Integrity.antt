-- ===== src/Audit/Integrity.antt =====
-- VerifyIntegrity of internal/audit/query.go: a walk over the stored events in the order of the
-- timestamp column, which holds formatted text, and then of the row ids.
pub mod Laws
pub mod Reads
use crabwise.Common.{
  ℕ, suc, ◌+◌, Bool, true, false, not, Option, none, some, List, [], ◌∷◌, ◌++◌, Text, codes, ◌==◌,
  sort_by, if◌then◌else◌,
}
use crabwise.Common.Result.{Result, ok, err}
use crabwise.Audit.Event.{AuditEvent}

-- (valid, total, brokenAt)
pub record Verdict : Type 0 where
  pub valid : Bool
  pub total : ℕ
  pub broken_at : Text

-- The loop over rows that are all read, with `prevHash` and `total`.
pub verify_rows : Text → ℕ → List AuditEvent → Verdict
verify_rows prev_hash total [] = record { valid = true; total = total; broken_at = [] }
verify_rows prev_hash total (e ∷ es) =
    let rest = verify_rows e.event_hash (total + 1) es in
    if not (e.prev_hash == prev_hash)
    then record { valid = false; total = total + 1; broken_at = e.id }
    else rest

unfoldable pub verify_integrity : (ℕ → Text) → List AuditEvent → Verdict
unfolding verify_rows
verify_integrity format_time events =
    verify_rows (codes "genesis") 0 (sort_by (λ e. format_time e.timestamp) events)

-- The loop with its errors: a row is what Scan gives, and the verdict comes with the error. The list
-- is what Next gives; the loop does not ask why it gives no more.
unfoldable pub read_rows : Text → ℕ → List (Result Text AuditEvent) → Verdict × Option Text
read_rows prev_hash total [] = (record { valid = true; total = total; broken_at = [] }, none)
read_rows prev_hash total (err e ∷ rows) =
    (record { valid = false; total = total; broken_at = [] }, some (codes "scan: " ++ e))
read_rows prev_hash total (ok e ∷ rows) =
    let rest = read_rows e.event_hash (total + 1) rows in
    if not (e.prev_hash == prev_hash)
    then (record { valid = false; total = total + 1; broken_at = e.id }, none)
    else rest

-- VerifyIntegrity over what the query gives.
unfoldable pub read_integrity : Result Text (List (Result Text AuditEvent)) → Verdict × Option Text
unfolding read_rows
read_integrity (err e) =
    (record { valid = false; total = 0; broken_at = [] }, some (codes "query: " ++ e))
read_integrity (ok rows) = read_rows (codes "genesis") 0 rows
