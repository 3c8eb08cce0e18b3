-- ===== src/Audit/Logger/Shutdown.antt =====
-- The shutdown of the logger loop: that it ends, and that all it takes off the queue is processed.
use crabwise.Common.{
  ℕ, zero, suc, ◌+◌, ◌<◌, ◌≡◌, refl, sym, subst, ap, ◌∙◌, Bool, true, false, Option, none, some,
  List, [], ◌∷◌, ◌++◌, ◌⊎◌, arith, length, map,
}
use mathlib.Core.List.{foldl-append}
use crabwise.Queue.{Queue, OverflowEvent, moves}
use crabwise.Queue.Laws.{moves-grow}
use crabwise.Audit.Event.{AuditEvent}
use crabwise.Audit.Logger.Drained.{
  overflow_record, events_of, processed, with_queue, flush-with, processed-with,
  drain_events-processed, receive_from-processed, control_from-processed,
}
use crabwise.Audit.Logger.{
  Races, now, later, total, raced, Services, EventStore, Logger, Item, done, flush, process_event,
  drain_events, drain_control, receive_from, control_from, take_arm, ready_arm, shutdown_loop,
  shutdown_fuel, stopped, iterate, select_arm, select_done,
}

-- The values that are taken off a queue until a select finds both channels empty, one after each
-- list of moves of the other goroutines, as the events that they stand for.
pub data Drains : Races → Queue Item → List AuditEvent → Type 0 where
  settled :
      (races : Races) (q : Queue Item)
      → (moves (now races) q).ch ≡ []
      → (moves (now races) q).control ≡ []
      → Drains races q []
  took :
      (races : Races) (q : Queue Item) (item : Item) (items : List Item) (es : List AuditEvent)
      → (moves (now races) q).ch ≡ item ∷ items
      → Drains (later races) (record (moves (now races) q) { ch = items }) es
      → Drains races q (events_of item ++ es)
  overflowed :
      (races : Races) (q : Queue Item) (oe : OverflowEvent) (oes : List OverflowEvent)
      (es : List AuditEvent)
      → (moves (now races) q).control ≡ oe ∷ oes
      → Drains (later races) (record (moves (now races) q) { control = oes }) es
      → Drains races q (overflow_record oe ∷ es)

module _ (services : Services) (store : EventStore) where
  -- The logger after a shutdown from `l`: both channels are empty, and but for the queue it is the
  -- one that processes the events taken and flushes.
  pub record Ends (races : Races) (l l' : Logger services store) : Type 0 where
    pub taken : List AuditEvent
    pub drains : Drains races l.q taken
    pub rest :
        l'
        ≡ with_queue services store l'.q (flush services store (processed services store l taken))
    pub ch : l'.q.ch ≡ []
    pub control : l'.q.control ≡ []

  abbrev Ended : Races → Logger services store → Option (Logger services store) → Type 0
  Ended races l none = ⊥
  Ended races l (some l') = Ends races l l'

  -- A round that processes the events `es` and leaves the queue `q`, before an end.
  advance :
      (races : Races) (l l₂ : Logger services store) (q : Queue Item) (es : List AuditEvent)
      (o : Option (Logger services store))
      → l₂ ≡ with_queue services store q (processed services store l es)
      → ((fs : List AuditEvent) → Drains (later races) q fs → Drains races l.q (es ++ fs))
      → Ended (later races) l₂ o
      → Ended races l o
  advance races l l₂ q es none at push h = absurd h
  advance races l l₂ q es (some l') at push r = record {
    taken = es ++ r.taken;
    drains = push r.taken (
        subst (λ (p : Queue Item). Drains (later races) p r.taken)
          (ap (λ (k : Logger services store). k.q) at) r.drains);
    rest =
        r.rest
        ∙ ap
            (λ (k : Logger services store).
              with_queue services store l'.q
                (flush services store (processed services store k r.taken)))
            at
        ∙ ap
            (λ (k : Logger services store). with_queue services store l'.q (flush services store k))
            (processed-with services store q (processed services store l es) r.taken)
        ∙ ap (with_queue services store l'.q) (
            flush-with services store q
              (processed services store (processed services store l es) r.taken))
        ∙ ap
            (λ (k : Logger services store). with_queue services store l'.q (flush services store k))
            (sym (foldl-append (λ k e. process_event services store e k) l es r.taken));
    ch = r.ch;
    control = r.control;
  }

  abbrev pending : Logger services store → ℕ
  pending l = length l.q.ch + length l.q.control

  module _ (fuel : ℕ) (picks : ℕ → Bool) (races : Races) (l : Logger services store)
      (next : (l₂ : Logger services store)
        → pending l₂ < pending (raced services store (now races) l)
        → Ended (later races) l₂ (shutdown_loop services store fuel picks (later races) l₂)) where
    abbrev here : Logger services store
    here = raced services store (now races) l

    receive-Ended :
        (item : Item) (items : List Item)
        → here.q.ch ≡ item ∷ items
        → Ended races l (
            shutdown_loop services store fuel picks
              (later races)
              (receive_from services store here.q.ch here))
    receive-Ended item items at =
        let q : Queue Item = record here.q { ch = items } in
        let step : receive_from services store here.q.ch here
            ≡ with_queue services store q (processed services store l (events_of item)) =
          ap (λ (is : List Item). receive_from services store is here) at
          ∙ receive_from-processed services store item items here
          ∙ ap (with_queue services store q)
              (processed-with services store here.q l (events_of item)) in
        let left : (receive_from services store here.q.ch here).q ≡ q =
          ap (λ (k : Logger services store). k.q) step in
        advance races l _ q (events_of item) _ step (λ fs. took races l.q item items fs at)
          (next _ (ground (arith, left, at)))

    control-Ended :
        (oe : OverflowEvent) (oes : List OverflowEvent)
        → here.q.control ≡ oe ∷ oes
        → Ended races l (
            shutdown_loop services store fuel picks
              (later races)
              (control_from services store here.q.control here))
    control-Ended oe oes at =
        let q : Queue Item = record here.q { control = oes } in
        let step : control_from services store here.q.control here
            ≡ with_queue services store q (processed services store l (overflow_record oe ∷ [])) =
          ap (λ (os : List OverflowEvent). control_from services store os here) at
          ∙ control_from-processed services store oe oes here
          ∙ ap (with_queue services store q)
              (processed-with services store here.q l (overflow_record oe ∷ [])) in
        let left : (control_from services store here.q.control here).q ≡ q =
          ap (λ (k : Logger services store). k.q) step in
        advance races l _ q (overflow_record oe ∷ []) _ step
          (λ fs. overflowed races l.q oe oes fs at) (next _ (ground (arith, left, at)))

    empty-Ended :
        here.q.ch ≡ []
        → here.q.control ≡ []
        → Ended races l (some (flush services store (drain_control services store here)))
    unfolding drain_control
    empty-Ended no_items no_overflows =
        let q : Queue Item = record here.q { control = [] } in
        let last : flush services store (drain_events services store here.q.control here)
            ≡ with_queue services store q (flush services store l) =
          ap (flush services store)
            (ap (λ (os : List OverflowEvent). drain_events services store os here) no_overflows)
          ∙ flush-with services store q l in
        let left = ap (λ (k : Logger services store). k.q) last in
        record {
          taken = [];
          drains = settled races l.q no_items no_overflows;
          rest =
              last
              ∙ ap (λ (p : Queue Item). with_queue services store p (flush services store l))
                  (sym left);
          ch = ap (λ (p : Queue Item). p.ch) left ∙ no_items;
          control = ap (λ (p : Queue Item). p.control) left;
        }

    round-Ended :
        (items : List Item) (oes : List OverflowEvent) (pick : Bool)
        → here.q.ch ≡ items
        → here.q.control ≡ oes
        → Ended races l (elim (ready_arm items oes pick) [
          | none ↦ some (flush services store (drain_control services store here))
          | some arm ↦
              shutdown_loop services store fuel picks
                (later races)
                (take_arm services store arm here)
        ])
    round-Ended [] [] pick at on = empty-Ended at on
    round-Ended [] (oe ∷ oes) pick at on = control-Ended oe oes on
    round-Ended (item ∷ items) [] pick at on = receive-Ended item items at
    round-Ended (item ∷ items) (oe ∷ oes) true at on = receive-Ended item items at
    round-Ended (item ∷ items) (oe ∷ oes) false at on = control-Ended oe oes on

  total-later : (races : Races) → total races ≡ length (now races) + total (later races)
  total-later [] = refl
  total-later (ms ∷ races) = refl

  shutdown_loop-Ended :
      (fuel : ℕ) (picks : ℕ → Bool) (races : Races) (l : Logger services store)
      → pending l + total races < fuel
      → Ended races l (shutdown_loop services store fuel picks races l)
  unfolding shutdown_loop
  shutdown_loop-Ended zero picks races l h = absurd (omega arith)
  shutdown_loop-Ended (suc fuel) picks races l h =
      round-Ended fuel picks races l
        (λ l₂ fewer.
          shutdown_loop-Ended fuel picks (later races) l₂
            (omega (arith, fewer, moves-grow (now races) l.q, total-later races)))
        _ _ (picks fuel) refl refl

  -- A flush leaves no batch, or one that the store refuses.
  flush-batch :
      (l : Logger services store)
      → ((flush services store l).batch ≡ [])
        ⊎ (store.insert_events (flush services store l).batch (flush services store l).db ≡ none)
  unfolding flush
  flush-batch l = ground arith

  -- How the loop ends when the context is cancelled in the state `l`.
  pub record Completed (races : Races) (l l' : Logger services store) : Type 0 where
    pub taken : List AuditEvent
    pub drains : Drains races (record l.q { control = [] }) taken
    pub rest :
        l'
        ≡ with_queue services store l'.q (
            flush services store
              (processed services store l (map overflow_record l.q.control ++ taken)))
    pub ch : l'.q.ch ≡ []
    pub control : l'.q.control ≡ []
    pub stored : (l'.batch ≡ []) ⊎ (store.insert_events l'.batch l'.db ≡ none)

  Ended-Completed :
      (races : Races) (l : Logger services store) (o : Option (Logger services store))
      → Ended races (drain_control services store l) o
      → (l' : Logger services store) × (select_done services store o ≡ stopped l')
        × Completed races l l'
  unfolding select_done drain_control
  Ended-Completed races l none h = absurd h
  Ended-Completed races l (some l') r =
      let before = map overflow_record l.q.control in
      let q : Queue Item = record l.q { control = [] } in
      let first = drain_events-processed services store l.q.control l in
      let rest : l'
          ≡ with_queue services store l'.q
              (flush services store (processed services store l (before ++ r.taken))) =
        r.rest
        ∙ ap
            (λ (k : Logger services store).
              with_queue services store l'.q
                (flush services store (processed services store k r.taken)))
            first
        ∙ ap
            (λ (k : Logger services store). with_queue services store l'.q (flush services store k))
            (processed-with services store q (processed services store l before) r.taken)
        ∙ ap (with_queue services store l'.q) (
            flush-with services store q
              (processed services store (processed services store l before) r.taken))
        ∙ ap
            (λ (k : Logger services store). with_queue services store l'.q (flush services store k))
            (sym (foldl-append (λ k e. process_event services store e k) l before r.taken)) in
      (
        l',
        refl,
        record {
          taken = r.taken;
          drains =
              subst (λ (p : Queue Item). Drains races p r.taken)
                (ap (λ (k : Logger services store). k.q) first) r.drains;
          rest = rest;
          ch = r.ch;
          control = r.control;
          stored =
              subst
                (λ (k : Logger services store).
                  (k.batch ≡ []) ⊎ (store.insert_events k.batch k.db ≡ none))
                (sym rest) (flush-batch (processed services store l (before ++ r.taken)));
        },
      )

  -- When the context is cancelled the loop stops, whatever the other goroutines do to the queue before
  -- each of finitely many selects and in whatever order the arms are taken while both channels hold
  -- values. Both channels are empty then, and but for the queue the state is that after processing one
  -- by one the overflow events that were pending and every value that was taken off a channel, in the
  -- order of the taking, and a flush; the batch is empty unless the store refuses it.
  pub iterate-done_stops :
      (picks : ℕ → Bool) (races : Races) (l : Logger services store)
      → (l' : Logger services store) × (iterate services store picks races done l ≡ stopped l')
        × Completed races l l'
  unfolding iterate select_arm
  iterate-done_stops picks races l =
      let l₁ = drain_control services store l in
      Ended-Completed races l _
        (shutdown_loop-Ended (shutdown_fuel services store races l₁) picks races l₁ (omega arith))
