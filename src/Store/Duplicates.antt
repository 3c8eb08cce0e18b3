-- ===== src/Store/Duplicates.antt =====
-- What an ignored duplicate does to the hash chain.
use crabwise.Common.{
  ℕ, ◌+◌, ◌≡◌, ◌≢◌, sym, ap, ◌∙◌, true, false, List, [], ◌∷◌, ◌++◌, Text, member, arith, length,
  Ascends,
}
use crabwise.Audit.Event.{AuditEvent, row_of}
use crabwise.Audit.Logger.Chain.{genesis, last_hash, event_ids}
use crabwise.Audit.Integrity.{verify_integrity}
use crabwise.Audit.Integrity.Laws.{Linked, verify_integrity-append_broken}
use crabwise.Store.{insert_row}

insert_row_duplicate :
    (e : AuditEvent) (rows : List AuditEvent)
    → member e.id (event_ids rows) ≡ true
    → insert_row e rows ≡ rows
unfolding insert_row
insert_row_duplicate e rows h = ground arith

insert_row_new :
    (e : AuditEvent) (rows : List AuditEvent)
    → member e.id (event_ids rows) ≡ false
    → insert_row e rows ≡ rows ++ row_of e ∷ []
unfolding insert_row
insert_row_new e rows h = ground arith

-- The insert of an event whose id is known leaves its hash out of the table, so the next event of the
-- chain, which names that hash, is where the verification of an intact log in ascending order breaks.
pub duplicate-breaks_chain :
    (format_time : ℕ → Text) (rows : List AuditEvent) (dup next : AuditEvent)
    → Linked genesis rows
    → member dup.id (event_ids rows) ≡ true
    → member next.id (event_ids rows) ≡ false
    → next.prev_hash ≡ dup.event_hash
    → dup.event_hash ≢ last_hash genesis rows
    → Ascends (λ e. format_time e.timestamp) (rows ++ row_of next ∷ [])
    → verify_integrity format_time (insert_row next (insert_row dup rows))
      ≡ record { valid = false; total = length rows + 1; broken_at = next.id }
duplicate-breaks_chain format_time rows dup next linked known new follows differs ascends =
    ap (λ (t : List AuditEvent). verify_integrity format_time (insert_row next t))
      (insert_row_duplicate dup rows known)
    ∙ ap (verify_integrity format_time) (insert_row_new next rows new)
    ∙ verify_integrity-append_broken format_time rows (row_of next) linked ascends
        (λ same. differs (sym follows ∙ same))
