-- ===== src/Store/Tests.antt =====
-- The theorems of the store at concrete tables.
use crabwise.Common.{◌≡◌, ◌≢◌, refl, true, false, [], ◌∷◌, ◌++◌, map, codes, member, ◌==◌, text_leb}
use crabwise.Audit.Event.{AuditEvent, row_of}
use crabwise.Queue.{new, policy_drop_oldest}
use crabwise.Audit.Canonical.{compute_hash}
use crabwise.Audit.Logger.{link, new_logger}
use crabwise.Store.Restart.{Opens, new_logger-IsChained}
use crabwise.Audit.Logger.Chain.{Chained, DistinctIds, genesis}
use crabwise.Audit.Integrity.{verify_integrity}
use crabwise.Audit.Samples.{plain_services, clock, first_event, second_event}
use crabwise.Store.{
  sqlite_store, Sql, track_offset, Database, empty_database, insert_row, insert_events,
}
use crabwise.Store.Laws.{insert_events-appends, insert_events-known}
use crabwise.Store.Duplicates.{duplicate-breaks_chain}

abbrev no_failures : Sql
no_failures = record {
  begin_ok = true;
  insert_ok = λ e. true;
  offset_ok = λ path. true;
  commit_ok = true;
  last_hash_ok = true;
}

abbrev two_rows : Database
two_rows = record empty_database { events = row_of first_event ∷ row_of second_event ∷ [] }

insert_events-appends_example : two_rows.events ≡ [] ++ map row_of (first_event ∷ second_event ∷ [])
unfolding insert_events insert_row track_offset member ◌==◌
insert_events-appends_example =
    insert_events-appends no_failures (first_event ∷ second_event ∷ []) empty_database two_rows
      (refl, (refl, tt)) refl

insert_events-known_example : two_rows.events ≡ two_rows.events
unfolding insert_events insert_row track_offset member ◌==◌
insert_events-known_example =
    insert_events-known no_failures (first_event ∷ []) two_rows two_rows (refl, tt) refl

abbrev row : AuditEvent
row = record first_event { prev_hash = genesis; event_hash = codes "h" }

-- The same id read again, chained after the row, and the event after it.
abbrev reread : AuditEvent
reread = record first_event { prev_hash = codes "h"; event_hash = codes "hh" }

abbrev next : AuditEvent
next = record second_event { prev_hash = codes "hh"; event_hash = codes "hhh" }

reread-differs : codes "hh" ≢ codes "h"
reread-differs e = cc

duplicate-breaks_chain_example :
    verify_integrity clock (insert_row next (insert_row reread (row ∷ [])))
    ≡ record { valid = false; total = 2; broken_at = codes "b" }
unfolding member ◌==◌ text_leb
duplicate-breaks_chain_example =
    duplicate-breaks_chain clock (row ∷ []) reread next (refl, tt) refl refl refl reread-differs
      (refl, tt)

abbrev earlier : Database
earlier = record empty_database { events = link plain_services genesis first_event ∷ [] }

earlier-Chained : Chained plain_services genesis earlier.events
unfolding link compute_hash
earlier-Chained = (refl, refl, tt)

earlier-Distinct : DistinctIds earlier.events
unfolding member
earlier-Distinct = (refl, tt)

new_logger-IsChained_example : Opens plain_services no_failures (
    new_logger plain_services (sqlite_store clock no_failures) (new 8 policy_drop_oldest) earlier 4)
new_logger-IsChained_example =
    new_logger-IsChained plain_services no_failures (new 8 policy_drop_oldest) earlier 4
      earlier-Chained earlier-Distinct tt
