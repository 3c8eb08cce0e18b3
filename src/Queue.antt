-- ===== src/Queue.antt =====
-- internal/queue/queue.go: the bounded event queue between the adapters and the audit logger.
-- A channel is the list of its buffered values, oldest first. A send is the sequence of its channel
-- operations; what other goroutines do between two of them is an explicit list of moves.
pub mod Laws
pub mod Account
mod Tests
use crabwise.Common.{
  ℕ, ◌+◌, ◌%◌, ◌^◌, Bool, true, false, List, [], ◌∷◌, ◌++◌, Text, codes, ◌==◌, length, ltb,
  if◌then◌else◌,
}

abbrev pub policy_block_with_timeout : Text
policy_block_with_timeout = codes "block_with_timeout"

abbrev pub policy_drop_oldest : Text
policy_drop_oldest = codes "drop_oldest"

pub record Stats : Type 0 where
  pub depth : ℕ
  pub capacity : ℕ
  pub dropped : ℕ
  pub overflow : ℕ

pub record OverflowEvent : Type 0 where
  pub id : Text
  pub timestamp : ℕ

pub record Queue (A : Type 0) : Type 0 where
  pub ch : List A
  pub capacity : ℕ
  pub control : List OverflowEvent
  pub policy : Text
  pub dropped : ℕ
  pub overflow : ℕ
  pub closed : Bool

-- The capacity of the control channel.
abbrev pub control_capacity : ℕ
control_capacity = 100

-- `Add(1)` on an atomic.Uint64
abbrev pub count_up : ℕ → ℕ
count_up n = (n + 1) % 2 ^ 64

-- What a non-blocking channel send does; a send on a closed channel panics.
pub data Offer (A : Type 0) : Type 0 where
  sent : Queue A → Offer A
  full : Offer A
  panic : Offer A

-- The result of `Send`: true, false, or a panic.
pub data Sent (A : Type 0) : Type 0 where
  accepted : Queue A → Sent A
  rejected : Queue A → Sent A
  panicked : Sent A

-- One channel operation of another goroutine: of a sender, of the consumer, or of `Close`.
pub data Move (A : Type 0) : Type 0 where
  received : Move A
  put : A → Move A
  control_received : Move A
  overflows : OverflowEvent → Move A
  closes : Move A

abbrev tail : {A : Type 0} → List A → List A
tail [] = []
tail (x ∷ xs) = xs

module _ {A : Type 0} where
  pub new : ℕ → Text → Queue A
  new capacity policy = record {
    ch = [];
    capacity = capacity;
    control = [];
    policy = policy;
    dropped = 0;
    overflow = 0;
    closed = false;
  }

  unfoldable pub offer : A → Queue A → Offer A
  offer event q =
      if q.closed
      then panic
      else if ltb (length q.ch) q.capacity
      then sent (record q { ch = q.ch ++ event ∷ [] })
      else full

  -- `case <-q.ch: q.dropped.Add(1)`, under the lock.
  evict_from : List A → Queue A → Queue A
  evict_from [] q = q
  evict_from (x ∷ rest) q = record q { ch = rest; dropped = count_up q.dropped }

  pub evict : Queue A → Queue A
  unfolding evict_from
  evict q = evict_from q.ch q

  -- The event is dropped silently where the control channel is full.
  abbrev pub offer_overflow : OverflowEvent → Queue A → Queue A
  offer_overflow evt q =
      if ltb (length q.control) control_capacity
      then record q { control = q.control ++ evt ∷ [] }
      else q

  abbrev count_overflow : Queue A → Queue A
  count_overflow q = record q { overflow = count_up q.overflow }

  abbrev count_drop : Queue A → Queue A
  count_drop q = record q { dropped = count_up q.dropped }

  move_offer : Queue A → Offer A → Queue A
  move_offer q (sent q') = q'
  move_offer q full = q
  move_offer q panic = q

  pub close : Queue A → Queue A
  close q = if q.closed then q else record q { closed = true }

  unfoldable pub move : Move A → Queue A → Queue A
  unfolding move_offer offer close
  move received q = record q { ch = tail q.ch }
  move (put event) q = move_offer q (offer event q)
  move control_received q = record q { control = tail q.control }
  move (overflows evt) q = if q.closed then q else offer_overflow evt q
  move closes q = close q

  unfoldable pub moves : List (Move A) → Queue A → Queue A
  unfolding move
  moves [] q = q
  moves (m ∷ ms) q = moves ms (move m q)

  -- `last` runs after the counting and before the send on the control channel.
  emit_overflow : OverflowEvent → List (Move A) → Queue A → (Queue A → Sent A) → Sent A
  unfolding moves
  emit_overflow evt last q return =
      let q' = moves last q in if q'.closed then panicked else return (offer_overflow evt q')

  -- The second select of `sendDropOldest`.
  second_offer : OverflowEvent → List (Move A) → Queue A → Offer A → Sent A
  unfolding emit_overflow
  second_offer evt last q (sent q') = emit_overflow evt last (count_overflow q') accepted
  second_offer evt last q full = emit_overflow evt last (count_overflow (count_drop q)) rejected
  second_offer evt last q panic = panicked

  first_offer_drop :
      OverflowEvent → List (Move A) → List (Move A) → List (Move A) → A → Queue A → Offer A → Sent A
  unfolding second_offer
  first_offer_drop evt before after last event q (sent q') = accepted q'
  first_offer_drop evt before after last event q full =
      let q₁ = moves after (evict (moves before q)) in second_offer evt last q₁ (offer event q₁)
  first_offer_drop evt before after last event q panic = panicked

  -- `before` runs between the first select and the lock, `after` before the last select.
  pub send_drop_oldest :
      OverflowEvent → List (Move A) → List (Move A) → List (Move A) → A → Queue A → Sent A
  unfolding first_offer_drop
  send_drop_oldest evt before after last event q =
      first_offer_drop evt before after last event q (offer event q)

  -- The blocking select: the send is tried after each move, and the timer fires after the last one.

  wait_offer : OverflowEvent → List (Move A) → List (Move A) → A → Queue A → Offer A → Sent A
  wait_offer evt ms last event q (sent q') = accepted q'
  wait_offer evt ms last event q panic = panicked
  wait_offer evt [] last event q full =
      emit_overflow evt last (count_overflow (count_drop q)) rejected
  wait_offer evt (m ∷ ms) last event q full =
      wait_offer evt ms last event (move m q) (offer event (move m q))

  pub send_block_timeout : OverflowEvent → List (Move A) → List (Move A) → A → Queue A → Sent A
  unfolding wait_offer
  send_block_timeout evt waiting last event q = wait_offer evt waiting last event q (offer event q)

  -- `race` runs between the test of `closed` and the first channel operation.
  pub send :
      OverflowEvent
      → List (Move A)
      → List (Move A)
      → List (Move A)
      → List (Move A)
      → A
      → Queue A
      → Sent A
  unfolding send_drop_oldest send_block_timeout
  send evt race before after last event q =
      if q.closed
      then rejected q
      else if q.policy == policy_drop_oldest
      then send_drop_oldest evt before after last event (moves race q)
      else send_block_timeout evt before last event (moves race q)

  pub stats : Queue A → Stats
  stats q = record {
    depth = length q.ch;
    capacity = q.capacity;
    dropped = q.dropped;
    overflow = q.overflow;
  }

  -- `range` over the closed channel reads what is buffered.
  pub drain : Queue A → List A × Queue A
  drain q = (q.ch, record q { ch = [] })
