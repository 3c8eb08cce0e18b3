-- ===== src/Audit/Integrity/Reads.antt =====
-- VerifyIntegrity of internal/audit/query.go when the reading of the rows fails.
use crabwise.Common.{
  ℕ, ◌+◌, ◌≡◌, refl, sym, ap, ◌∙◌, true, false, Option, none, some, List, [], ◌∷◌, ◌++◌, map, Text,
  codes, ◌==◌, arith, length, sort_by, Bool-cases, inl, inr, if◌then◌else◌,
}
use crabwise.Common.Result.{Result, ok, err}
use crabwise.Audit.Event.{AuditEvent}
use crabwise.Audit.Integrity.{Verdict, verify_rows, verify_integrity, read_rows, read_integrity}

-- What is left to report once the rows before a failed Scan were walked.
abbrev pub after_failure : Verdict → Text → Verdict × Option Text
after_failure v e =
    if v.valid
    then (record { valid = false; total = v.total; broken_at = [] }, some (codes "scan: " ++ e))
    else (v, none)

read_rows-failed :
    (prev : Text) (start : ℕ) (rows : List AuditEvent) (e : Text)
    (more : List (Result Text AuditEvent))
    → read_rows prev start (map ok rows ++ (err e ∷ more))
      ≡ after_failure (verify_rows prev start rows) e
unfolding read_rows verify_rows
read_rows-failed prev start [] e more = refl
read_rows-failed prev start (r ∷ rows) e more = elim (Bool-cases (r.prev_hash == prev)) [
  | inr other ↦ rw other refl
  | inl same ↦ rw same (read_rows-failed r.event_hash (start + 1) rows e more)
]

read_rows-whole :
    (prev : Text) (start : ℕ) (rows : List AuditEvent)
    → read_rows prev start (map ok rows) ≡ (verify_rows prev start rows, none)
unfolding read_rows verify_rows
read_rows-whole prev start [] = refl
read_rows-whole prev start (r ∷ rows) = elim (Bool-cases (r.prev_hash == prev)) [
  | inr other ↦ rw other refl
  | inl same ↦ rw same (read_rows-whole r.event_hash (start + 1) rows)
]

verify_rows-prefix :
    (prev : Text) (start : ℕ) (rows more : List AuditEvent)
    → (verify_rows prev start (rows ++ more)).valid ≡ true
    → verify_rows prev start rows
      ≡ record { valid = true; total = start + length rows; broken_at = [] }
unfolding verify_rows
verify_rows-prefix prev start [] more h = ground arith
verify_rows-prefix prev start (r ∷ rows) more h = elim (Bool-cases (r.prev_hash == prev)) [
  | inr other ↦ absurd (ground (arith, other))
  | inl same ↦
      rw same (
        verify_rows-prefix r.event_hash (start + 1) rows more (ground (arith, same)) ∙ ground arith)
]

-- When a row cannot be scanned, the answer depends on the rows before it alone: if they are linked,
-- it is the error of the scan with their number as the total, and otherwise it is the verdict on
-- them, with no error.
pub read_integrity-scan_failed :
    (rows : List AuditEvent) (e : Text) (more : List (Result Text AuditEvent))
    → read_integrity (ok (map ok rows ++ (err e ∷ more)))
      ≡ after_failure (verify_rows (codes "genesis") 0 rows) e
unfolding read_integrity
read_integrity-scan_failed rows e more = read_rows-failed (codes "genesis") 0 rows e more

-- A read that ends too early is not noticed: if a table verifies as valid and only the first of its
-- rows in the order of the query arrive, the answer is valid over these, with no error.
pub read_integrity-cut_off :
    (format_time : ℕ → Text) (events rows more : List AuditEvent)
    → sort_by (λ e. format_time e.timestamp) events ≡ rows ++ more
    → (verify_integrity format_time events).valid ≡ true
    → read_integrity (ok (map ok rows))
      ≡ (record { valid = true; total = length rows; broken_at = [] }, none)
unfolding read_integrity verify_integrity
read_integrity-cut_off format_time events rows more split valid =
    read_rows-whole (codes "genesis") 0 rows
    ∙ ap (λ (v : Verdict). (v, none))
        (verify_rows-prefix (codes "genesis") 0 rows more (
          sym (ap (λ (es : List AuditEvent). (verify_rows (codes "genesis") 0 es).valid) split)
          ∙ valid))
    ∙ ap (λ (n : ℕ). (record { valid = true; total = n; broken_at = [] }, none)) (omega arith)
