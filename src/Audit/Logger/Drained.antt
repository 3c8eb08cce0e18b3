-- ===== src/Audit/Logger/Drained.antt =====
-- The processing of what the logger takes off the queue does not depend on the queue.
use crabwise.Common.{
  ◌≡◌, refl, ap, ◌∙◌, List, [], ◌∷◌, arith, length, if-intro, leb, foldl, map, codes,
}
use crabwise.Queue.{Queue, OverflowEvent}
use crabwise.Audit.Event.{AuditEvent, zero_event, action_system, outcome_warned}
use crabwise.Audit.Logger.{
  Services, EventStore, Logger, Item, event, other, flush, chain_event, process_event, process_item,
  process_overflow, drain_events, receive_from, control_from, apply_commandments,
}

-- The event that records an overflow.
abbrev pub overflow_record : OverflowEvent → AuditEvent
overflow_record oe = record zero_event {
  id = oe.id;
  timestamp = oe.timestamp;
  agent_id = codes "crabwise";
  action_type = action_system;
  action = codes "pipeline_overflow";
  outcome = outcome_warned;
}

abbrev pub events_of : Item → List AuditEvent
events_of (event e) = e ∷ []
events_of other = []

module _ (services : Services) (store : EventStore) where
  flush-q : (l : Logger services store) → (flush services store l).q ≡ l.q
  unfolding flush
  flush-q l = ground arith

  chain_event-q :
      (e : AuditEvent) (l : Logger services store) → (chain_event services store e l).q ≡ l.q
  unfolding chain_event
  chain_event-q e l = ground arith

  process_event-q :
      (e : AuditEvent) (l : Logger services store) → (process_event services store e l).q ≡ l.q
  unfolding process_event
  process_event-q e l =
      let l' = chain_event services store (apply_commandments services e) l in
      let kept = chain_event-q (apply_commandments services e) l in
      if-intro (λ (k : Logger services store). k.q ≡ l.q) (leb l'.batch_size (length l'.batch)) _ l'
        (λ _. flush-q l' ∙ kept) (λ _. kept)

  process_overflow-q :
      (oe : OverflowEvent) (l : Logger services store)
      → (process_overflow services store oe l).q ≡ l.q
  unfolding process_overflow
  process_overflow-q oe l = process_event-q _ l

  -- The events processed one after the other.
  abbrev pub processed : Logger services store → List AuditEvent → Logger services store
  processed l es = foldl (λ k e. process_event services store e k) l es

  abbrev pub with_queue : Queue Item → Logger services store → Logger services store
  with_queue q l = record l { q = q }

  pub flush-with :
      (q : Queue Item) (l : Logger services store)
      → flush services store (with_queue q l) ≡ with_queue q (flush services store l)
  unfolding flush
  flush-with q l = ground arith

  chain_event-with :
      (q : Queue Item) (e : AuditEvent) (l : Logger services store)
      → chain_event services store e (with_queue q l)
        ≡ with_queue q (chain_event services store e l)
  unfolding chain_event
  chain_event-with q e l = ground arith

  process_event-with :
      (q : Queue Item) (e : AuditEvent) (l : Logger services store)
      → process_event services store e (with_queue q l)
        ≡ with_queue q (process_event services store e l)
  unfolding process_event
  process_event-with q e l = ground (
    arith,
    chain_event-with q (apply_commandments services e) l,
    flush-with q (chain_event services store (apply_commandments services e) l),
  )

  pub processed-with :
      (q : Queue Item) (l : Logger services store) (es : List AuditEvent)
      → processed (with_queue q l) es ≡ with_queue q (processed l es)
  processed-with q l [] = refl
  processed-with q l (e ∷ es) =
      ap (λ (k : Logger services store). processed k es) (process_event-with q e l)
      ∙ processed-with q (process_event services store e l) es

  process_item-with :
      (q : Queue Item) (i : Item) (l : Logger services store)
      → process_item services store i (with_queue q l) ≡ with_queue q (processed l (events_of i))
  unfolding process_item
  process_item-with q (event e) l = process_event-with q e l
  process_item-with q other l = refl

  process_overflow-with :
      (q : Queue Item) (oe : OverflowEvent) (l : Logger services store)
      → process_overflow services store oe (with_queue q l)
        ≡ with_queue q (processed l (overflow_record oe ∷ []))
  unfolding process_overflow
  process_overflow-with q oe l = process_event-with q (overflow_record oe) l

  pub drain_events-processed :
      (oes : List OverflowEvent) (l : Logger services store)
      → drain_events services store oes l
        ≡ with_queue (record l.q { control = [] }) (processed l (map overflow_record oes))
  unfolding drain_events process_overflow
  drain_events-processed [] l = refl
  drain_events-processed (oe ∷ oes) l =
      drain_events-processed oes (process_overflow services store oe l)
      ∙ ap
          (λ (q : Queue Item).
            with_queue (record q { control = [] })
              (processed (process_overflow services store oe l) (map overflow_record oes)))
          (process_overflow-q oe l)

  pub receive_from-processed :
      (item : Item) (items : List Item) (l : Logger services store)
      → receive_from services store (item ∷ items) l
        ≡ with_queue (record l.q { ch = items }) (processed l (events_of item))
  unfolding receive_from
  receive_from-processed item items l = process_item-with (record l.q { ch = items }) item l

  pub control_from-processed :
      (oe : OverflowEvent) (oes : List OverflowEvent) (l : Logger services store)
      → control_from services store (oe ∷ oes) l
        ≡ with_queue (record l.q { control = oes }) (processed l (overflow_record oe ∷ []))
  unfolding control_from
  control_from-processed oe oes l = process_overflow-with (record l.q { control = oes }) oe l
