-- ===== src/Audit/Logger.antt =====
-- internal/audit/logger.go: the serializer that evaluates, redacts, hashes and persists the events
-- of the queue. The loop is a step function; which ready arm a select takes is the argument.
pub mod Outcome
pub mod Chain
pub mod Drained
pub mod Shutdown
pub mod Ranks
use crabwise.Common.{
  ℕ, zero, suc, ◌+◌, ◌≡◌, Bool, true, false, Option, none, some, List, [], ◌∷◌, ◌++◌, map, foldl,
  Text, codes, ◌==◌, ◌||◌, length, ltb, leb, ℤ, pos, negsuc, if◌then◌else◌, to_lower, any,
}
use crabwise.Queue.{Queue, OverflowEvent, Move, moves}
use crabwise.Audit.Event.{
  AuditEvent, zero_event, action_system, outcome_success, outcome_warned, outcome_failure,
  outcome_blocked,
}
use crabwise.Audit.Canonical.{compute_hash}

pub record TriggeredRule : Type 0 where
  pub name : Text
  pub enforcement : Text
  pub message : Text

pub record EvalResult : Type 0 where
  pub evaluated : List Text
  pub triggered : List TriggeredRule

-- The interface EventStore. `insert_events` is a transaction: `none` is an error that changes nothing; `none`
-- of `get_last_event_hash` is an error of the query.
pub record EventStore : Type 1 where
  pub Db : Type 0
  pub insert_events : List AuditEvent → Db → Option Db
  pub get_last_event_hash : Db → Option Text
  pub insert_chain_anchor : Text → Text → Text → Db → Db

-- What the logger is built over: the evaluator and the redactor are nil until they are set; JSON,
-- time layouts and the hash are those of the standard library.
pub record Services : Type 0 where
  pub evaluator : Option (AuditEvent → EvalResult)
  pub redactor : Option (AuditEvent → Bool → AuditEvent)
  pub marshal_evaluated : List Text → Option Text
  pub marshal_triggered : List TriggeredRule → Option Text
  pub format_time : ℕ → Text
  pub format_date : ℕ → Text
  pub sha256_hex : Text → Text

-- A value of the queue: an event, or anything else, which is skipped.
pub data Item : Type 0 where
  event : AuditEvent → Item
  other : Item

pub outcome_for_enforcement : Text → Text → Text
outcome_for_enforcement enforcement adapter_type =
    if to_lower enforcement == codes "warn"
    then outcome_warned
    else if to_lower enforcement == codes "block"
    then (if adapter_type == codes "log_watcher" then outcome_warned else outcome_blocked)
    else outcome_success

pub outcome_rank : Text → ℤ
outcome_rank outcome =
    if outcome == outcome_success
    then pos 0
    else if outcome == outcome_warned
    then pos 1
    else if outcome == outcome_failure
    then pos 2
    else if outcome == outcome_blocked
    then pos 3
    else negsuc 0

-- `a > b`
unfoldable pub gt_int : ℤ → ℤ → Bool
gt_int (pos m) (pos n) = ltb n m
gt_int (pos m) (negsuc n) = true
gt_int (negsuc m) (pos n) = false
gt_int (negsuc m) (negsuc n) = ltb m n

abbrev exempt_actions : List Text
exempt_actions =
    codes "commandments_reload_ok"
    ∷ codes "commandments_reload_failed"
    ∷ codes "commandments_load_failed"
    ∷ codes "commandments_load_ok"
    ∷ codes "tool_registry_reload_ok"
    ∷ codes "tool_registry_reload_failed"
    ∷ []

unfoldable pub is_commandments_exempt_system_event : AuditEvent → Bool
is_commandments_exempt_system_event e =
    if e.action_type == action_system then any (λ a. e.action == a) exempt_actions else false

-- One round of the loop over the triggered rules.
pub raise_outcome : AuditEvent → TriggeredRule → AuditEvent
unfolding gt_int
raise_outcome e rule =
    let candidate = outcome_for_enforcement rule.enforcement e.adapter_type in
    if gt_int (outcome_rank candidate) (outcome_rank e.outcome)
    then record e { outcome = candidate }
    else e

pub raise_outcomes : List TriggeredRule → AuditEvent → AuditEvent
unfolding raise_outcome
raise_outcomes [] e = e
raise_outcomes (rule ∷ rules) e = raise_outcomes rules (raise_outcome e rule)

abbrev pub or_keep : Option Text → Text → Text
or_keep none old = old
or_keep (some new) old = new

-- The arms of the select statement of the loop.
pub data Arm : Type 0 where
  done receive control tick : Arm

-- The arm that a select with a default takes, if one is ready.
abbrev ready_arm : List Item → List OverflowEvent → Bool → Option Arm
ready_arm [] [] pick = none
ready_arm [] (oe ∷ oes) pick = some control
ready_arm (item ∷ items) [] pick = some receive
ready_arm (item ∷ items) (oe ∷ oes) pick = some (if pick then receive else control)

-- What other goroutines do to the queue before each select of the shutdown; nothing after the last
-- one.
abbrev pub Races : Type 0
Races = List (List (Move Item))

abbrev pub now : Races → List (Move Item)
now [] = []
now (ms ∷ races) = ms

abbrev pub later : Races → Races
later [] = []
later (ms ∷ races) = races

abbrev pub total : Races → ℕ
total [] = 0
total (ms ∷ races) = length ms + total races

module _ (services : Services) where
  open services use {
    evaluator, redactor, marshal_evaluated, marshal_triggered, format_time, format_date, sha256_hex,
  }

  unfoldable pub evaluate : AuditEvent → EvalResult
  evaluate e = elim evaluator [
    | none ↦ record { evaluated = []; triggered = [] }
    | some eval ↦ eval e
  ]

  unfoldable pub redact : AuditEvent → Bool → AuditEvent
  redact e rule_triggered = elim redactor [ none ↦ e | some f ↦ f e rule_triggered ]

  abbrev some_triggered : EvalResult → Bool
  some_triggered result = ltb 0 (length result.triggered)

  annotate : EvalResult → AuditEvent → AuditEvent
  annotate result e = record e {
    commandments_evaluated = or_keep (marshal_evaluated result.evaluated) e.commandments_evaluated;
    commandments_triggered = or_keep (marshal_triggered result.triggered) e.commandments_triggered;
  }

  -- The first half of `processEvent`: evaluation, annotation, outcome and redaction.
  unfoldable pub apply_commandments : AuditEvent → AuditEvent
  unfolding evaluate redact annotate raise_outcomes
  apply_commandments e =
      if is_commandments_exempt_system_event e
      then e
      else let result = evaluate e in
        redact (raise_outcomes result.triggered (annotate result e)) (some_triggered result)

  -- `e.PrevHash = l.prevHash; e.EventHash = ComputeHash(e, l.prevHash)`
  unfoldable pub link : Text → AuditEvent → AuditEvent
  link prev e =
      let e' = record e { prev_hash = prev } in
      record e' { event_hash = compute_hash format_time sha256_hex e' prev }

  module _ (store : EventStore) where
    open store use {Db, insert_events, get_last_event_hash, insert_chain_anchor}

    pub record Logger : Type 0 where
      pub q : Queue Item
      pub db : Db
      pub batch_size : ℕ
      pub prev_hash : Text
      pub last_epoch : Text
      pub batch : List AuditEvent
      pub subscribers : List (List AuditEvent)

    -- `none` is an error of the store.
    unfoldable pub new_logger : Queue Item → Db → ℕ → Option Logger
    new_logger q db batch_size = elim (get_last_event_hash db) [
      | none ↦ none
      | some prev_hash ↦ some (record {
        q = q;
        db = db;
        batch_size = batch_size;
        prev_hash = prev_hash;
        last_epoch = [];
        batch = [];
        subscribers = [];
      })
    ]

    -- A subscriber's channel holds 256 events; one that is full misses the event.
    notify : List (List AuditEvent) → AuditEvent → List (List AuditEvent)
    notify channels e = map (λ ch. if ltb (length ch) 256 then ch ++ e ∷ [] else ch) channels

    pub flush : Logger → Logger
    unfolding notify
    flush l = elim l.batch [
      | [] ↦ l
      | first ∷ rest ↦ elim (insert_events l.batch l.db) [
        | none ↦ l
        | some db' ↦ record l {
          db = db';
          subscribers = foldl notify l.subscribers l.batch;
          batch = [];
        }
      ]
    ]

    -- The chain link and the daily anchor of `processEvent`.
    pub chain_event : AuditEvent → Logger → Logger
    unfolding link
    chain_event e l =
        let e' = link l.prev_hash e in
        let epoch = format_date e'.timestamp in
        let l' = record l { prev_hash = e'.event_hash; batch = l.batch ++ e' ∷ [] } in
        if epoch == l.last_epoch then l' else record l' {
          last_epoch = epoch;
          db = insert_chain_anchor epoch e'.id e'.event_hash l'.db;
        }

    pub process_event : AuditEvent → Logger → Logger
    unfolding apply_commandments chain_event
    process_event e l =
        let l' = chain_event (apply_commandments e) l in
        if leb l'.batch_size (length l'.batch) then flush l' else l'

    pub process_item : Item → Logger → Logger
    process_item (event e) l = process_event e l
    process_item other l = l

    pub process_overflow : OverflowEvent → Logger → Logger
    process_overflow oe l =
        process_event
          (record zero_event {
            id = oe.id;
            timestamp = oe.timestamp;
            agent_id = codes "crabwise";
            action_type = action_system;
            action = codes "pipeline_overflow";
            outcome = outcome_warned;
          })
          l

    pub drain_events : List OverflowEvent → Logger → Logger
    drain_events [] l = record l { q = record l.q { control = [] } }
    drain_events (oe ∷ oes) l = drain_events oes (process_overflow oe l)

    pub drain_control : Logger → Logger
    unfolding drain_events
    drain_control l = drain_events l.q.control l

    pub receive_from : List Item → Logger → Logger
    receive_from [] l = l
    receive_from (item ∷ rest) l = process_item item (record l { q = record l.q { ch = rest } })

    pub control_from : List OverflowEvent → Logger → Logger
    control_from [] l = l
    control_from (oe ∷ rest) l =
        process_overflow oe (record l { q = record l.q { control = rest } })

    abbrev take_arm : Arm → Logger → Logger
    take_arm receive l = receive_from l.q.ch l
    take_arm control l = control_from l.q.control l
    take_arm _ l = l

    -- What the senders do to the queue.
    abbrev pub raced : List (Move Item) → Logger → Logger
    raced ms l = record l { q = moves ms l.q }

    -- The loop at shutdown; `picks` says whether the event arm is taken while both channels hold
    -- values, and `races` what other goroutines do to the queue before each select. It ends when a
    -- select finds both channels empty.
    pub shutdown_loop : ℕ → (ℕ → Bool) → Races → Logger → Option Logger
    unfolding receive_from control_from moves
    shutdown_loop zero picks races l = none
    shutdown_loop (suc fuel) picks races l =
        let l' = raced (now races) l in
        elim (ready_arm l'.q.ch l'.q.control (picks fuel)) [
          | none ↦ some (flush (drain_control l'))
          | some arm ↦ shutdown_loop fuel picks (later races) (take_arm arm l')
        ]

    -- Enough rounds for what is buffered and what may still come.
    abbrev pub shutdown_fuel : Races → Logger → ℕ
    shutdown_fuel races l = suc (length l.q.ch + length l.q.control + total races)

    pub data Iteration : Type 0 where
      running stopped : Logger → Iteration
      stuck : Iteration

    select_receive : Logger → Iteration
    select_receive l = elim l.q.ch [
      | [] ↦ if l.q.closed then stopped (flush l) else running l
      | item ∷ rest ↦ running (receive_from l.q.ch l)
    ]

    select_done : Option Logger → Iteration
    select_done none = stuck
    select_done (some l) = stopped l

    select_arm : (ℕ → Bool) → Races → Arm → Logger → Iteration
    unfolding shutdown_loop select_receive select_done
    select_arm picks races done l =
        select_done (shutdown_loop (shutdown_fuel races l) picks races l)
    select_arm picks races receive l = select_receive l
    select_arm picks races control l = running (control_from l.q.control l)
    select_arm picks races tick l = running (flush l)

    -- One round of `serializerLoop`. An arm whose channel is open and empty is not ready: nothing
    -- happens then.
    pub iterate : (ℕ → Bool) → Races → Arm → Logger → Iteration
    unfolding select_arm drain_control
    iterate picks races arm l = select_arm picks races arm (drain_control l)
