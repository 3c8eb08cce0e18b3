-- ===== src/Audit/Tests.antt =====
-- The theorems of the audit log at concrete events, services and states.
use crabwise.Common.{
  ℕ, ◌-◌, ap, none, ◌≡◌, ◌≢◌, refl, Bool, true, false, List, [], ◌∷◌, ◌++◌, ◌⊎◌, Text, codes,
  length, map, any, not, ◌&&◌, ◌||◌, arith, sort_by, member, ◌==◌, text_leb, Ascends, if◌then◌else◌,
}
use crabwise.Queue.{Queue, put, policy_drop_oldest, new as new_queue}
use crabwise.Audit.Event.{AuditEvent}
use crabwise.Audit.Canonical.{compute_hash}
use crabwise.Audit.Canonical.Fields.{hashed_fields}
use crabwise.Audit.Canonical.Injective.{
  IsEncodableEvent, Collision, canonical_bytes-injective, compute_hash-binding,
}
use crabwise.Audit.Logger.{
  Services, EventStore, Logger, Item, event, evaluate, apply_commandments, link, redact, iterate,
  stopped, done, Races, is_commandments_exempt_system_event,
}
use crabwise.Audit.Logger.Outcome.{
  RedactorKeepsOutcome, is_blocked, is_log_watcher, is_block_rule, apply_commandments-blocked,
}
use crabwise.Audit.Logger.Chain.{
  genesis, Chained, SameFields, AllEncodable, last_hash-binding, IsChained, process_all,
  process_all-IsChained, DistinctIds, StoreLaws, history,
}
use crabwise.Audit.Logger.Shutdown.{Completed, iterate-done_stops}
use crabwise.Common.Result.{ok, err}
use crabwise.Audit.Integrity.{Verdict, verify_rows, verify_integrity, read_integrity}
use crabwise.Audit.Integrity.Reads.{
  after_failure, read_integrity-scan_failed, read_integrity-cut_off,
}
use crabwise.Audit.Integrity.Laws.{
  Linked, BreaksAt, KeepsLinks, verify_integrity-Explained, verify_integrity-Chained,
  verify_integrity-append_broken, verify_integrity-KeepsLinks, verify_integrity-misordered,
}
use crabwise.Store.{Sql, empty_database, sqlite_store}
use crabwise.Store.Laws.{sqlite_store-StoreLaws}
use crabwise.Audit.Samples.{clock, plain_services, blocking_services, first_event, second_event}

abbrev sha : Text → Text
sha t = length t ∷ []

first_event-IsEncodable : IsEncodableEvent clock first_event
first_event-IsEncodable = ground arith

canonical_bytes-injective_example :
    (hashed_fields clock first_event ≡ hashed_fields clock first_event) × (codes "x" ≡ codes "x")
canonical_bytes-injective_example =
    canonical_bytes-injective clock first_event first_event (codes "x") (codes "x")
      first_event-IsEncodable first_event-IsEncodable refl

compute_hash-binding_example :
    ((hashed_fields clock first_event ≡ hashed_fields clock first_event) × (genesis ≡ genesis))
    ⊎ Collision sha
compute_hash-binding_example =
    compute_hash-binding clock sha first_event first_event genesis genesis first_event-IsEncodable
      first_event-IsEncodable refl

abbrev linked_first : AuditEvent
linked_first = link plain_services genesis first_event

abbrev linked_second : AuditEvent
linked_second = link plain_services linked_first.event_hash second_event

abbrev log : List AuditEvent
log = linked_first ∷ linked_second ∷ []

log-Chained : Chained plain_services genesis log
unfolding link compute_hash
log-Chained = (refl, refl, (refl, refl, tt))

log-AllEncodable : AllEncodable plain_services log
unfolding link compute_hash
log-AllEncodable = (ground arith, (ground arith, tt))

last_hash-binding_example :
    (SameFields plain_services log log × (genesis ≡ genesis)) ⊎ Collision sha
last_hash-binding_example =
    last_hash-binding plain_services log log genesis genesis refl log-AllEncodable log-AllEncodable
      log-Chained log-Chained refl

log-Ascends : Ascends (λ (e : AuditEvent). clock e.timestamp) log
unfolding link text_leb
log-Ascends = (refl, tt)

verify_integrity-Chained_example :
    verify_integrity clock log ≡ record { valid = true; total = 2; broken_at = [] }
verify_integrity-Chained_example =
    verify_integrity-Chained plain_services log log-Chained log-Ascends

verify_integrity-Explained_example :
    let rows = sort_by (λ e. clock e.timestamp) log in
    let v = verify_integrity clock log in
    ((v.valid ≡ true) × Linked genesis rows × (v.total ≡ length rows))
    ⊎ ((v.valid ≡ false) × BreaksAt genesis rows v.total v.broken_at)
verify_integrity-Explained_example = verify_integrity-Explained clock log

-- A row that names the first hash again, after the first row.
abbrev forged : AuditEvent
forged = record second_event { prev_hash = genesis; event_hash = codes "f" }

abbrev first_row : AuditEvent
first_row = record first_event { prev_hash = genesis; event_hash = codes "h" }

forged-differs : genesis ≢ codes "h"
forged-differs e = cc

rows-Ascend : Ascends (λ (e : AuditEvent). clock e.timestamp) (first_row ∷ forged ∷ [])
unfolding text_leb
rows-Ascend = (refl, tt)

verify_integrity-append_broken_example :
    verify_integrity clock (first_row ∷ forged ∷ [])
    ≡ record { valid = false; total = 2; broken_at = codes "b" }
verify_integrity-append_broken_example =
    verify_integrity-append_broken clock (first_row ∷ []) forged (refl, tt) rows-Ascend
      forged-differs

abbrev erase : AuditEvent → AuditEvent
erase e = record e { arguments = []; outcome = [] }

erase-KeepsLinks : KeepsLinks erase
erase-KeepsLinks = record {
  id = λ e. refl;
  timestamp = λ e. refl;
  prev_hash = λ e. refl;
  event_hash = λ e. refl;
}

verify_integrity-KeepsLinks_example :
    verify_integrity clock (map erase log) ≡ verify_integrity clock log
verify_integrity-KeepsLinks_example = verify_integrity-KeepsLinks clock erase-KeepsLinks log

-- The clock whose text is shorter for whole seconds, as trailing zeros are dropped.
abbrev late_services : Services
late_services = record plain_services {
  format_time = λ t. (9 - t) ∷ [];
  sha256_hex = λ t. codes "h";
}

abbrev late_first : AuditEvent
late_first = link late_services genesis first_event

abbrev late_second : AuditEvent
late_second = link late_services late_first.event_hash second_event

late-Chained : Chained late_services genesis (late_first ∷ late_second ∷ [])
unfolding link compute_hash
late-Chained = (refl, refl, (refl, refl, tt))

late_first-hash : late_first.event_hash ≢ genesis
unfolding link compute_hash
late_first-hash e = cc

late-order :
    text_leb
      (late_services.format_time late_first.timestamp)
      (late_services.format_time late_second.timestamp)
    ≡ false
unfolding link text_leb
late-order = refl

verify_integrity-misordered_example :
    verify_integrity late_services.format_time (late_first ∷ late_second ∷ [])
    ≡ record { valid = false; total = 1; broken_at = late_second.id }
verify_integrity-misordered_example =
    verify_integrity-misordered late_services late_first late_second late-Chained late_first-hash
      late-order

keeps : RedactorKeepsOutcome blocking_services
unfolding redact
keeps e triggered = refl

apply_commandments-blocked_example :
    is_blocked (apply_commandments blocking_services first_event) ≡ (
      if is_commandments_exempt_system_event first_event
      then is_blocked first_event
      else is_blocked first_event
        || (not (is_log_watcher first_event)
            && any is_block_rule (evaluate blocking_services first_event).triggered))
apply_commandments-blocked_example = apply_commandments-blocked blocking_services first_event keeps

abbrev picks : ℕ → Bool
picks n = true

abbrev busy_queue : Queue Item
busy_queue = record (new_queue 8 policy_drop_oldest) {
  ch = event first_event ∷ event second_event ∷ [];
}

-- A sender that is still alive puts an event before the second select.
abbrev races : Races
races = [] ∷ (put (event second_event) ∷ []) ∷ []

abbrev no_failures : Sql
no_failures = record {
  begin_ok = true;
  insert_ok = λ e. true;
  offset_ok = λ path. true;
  commit_ok = true;
  last_hash_ok = true;
}

abbrev table : EventStore
table = sqlite_store clock no_failures

abbrev busy : Logger plain_services table
busy = record {
  q = busy_queue;
  db = empty_database;
  batch_size = 2;
  prev_hash = genesis;
  last_epoch = [];
  batch = [];
  subscribers = [];
}

iterate-done_stops_example :
    (l' : Logger plain_services table) × (iterate plain_services table picks races done busy
      ≡ stopped l')
    × Completed plain_services table races busy l'
iterate-done_stops_example = iterate-done_stops plain_services table picks races busy

abbrev laws : StoreLaws table
laws = sqlite_store-StoreLaws no_failures clock

incoming-Distinct : DistinctIds (
    history plain_services table laws busy
    ++ map (apply_commandments plain_services) (first_event ∷ second_event ∷ []))
unfolding apply_commandments is_commandments_exempt_system_event redact member ◌==◌
incoming-Distinct = (refl, (refl, tt))

busy-IsChained : IsChained plain_services table laws busy
unfolding sort_by
busy-IsChained = record { chained = tt; tip = refl; distinct = tt }

process_all-IsChained_example :
    IsChained plain_services table laws
      (process_all plain_services table laws (first_event ∷ second_event ∷ []) busy)
process_all-IsChained_example =
    process_all-IsChained plain_services table laws (first_event ∷ second_event ∷ []) busy
      incoming-Distinct busy-IsChained

read_integrity-scan_failed_example :
    read_integrity (ok (map ok log ++ (err (codes "type") ∷ [])))
    ≡ after_failure (verify_rows (codes "genesis") 0 log) (codes "type")
read_integrity-scan_failed_example = read_integrity-scan_failed log (codes "type") []

log-split : sort_by (λ e. clock e.timestamp) log ≡ (linked_first ∷ []) ++ (linked_second ∷ [])
unfolding sort_by link text_leb
log-split = refl

log-IsValid : (verify_integrity clock log).valid ≡ true
log-IsValid =
    ap (λ (v : Verdict). v.valid)
      (verify_integrity-Chained plain_services log log-Chained log-Ascends)

read_integrity-cut_off_example :
    read_integrity (ok (map ok (linked_first ∷ [])))
    ≡ (record { valid = true; total = 1; broken_at = [] }, none)
read_integrity-cut_off_example =
    read_integrity-cut_off clock log (linked_first ∷ []) (linked_second ∷ []) log-split log-IsValid
