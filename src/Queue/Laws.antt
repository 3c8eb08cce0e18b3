-- ===== src/Queue/Laws.antt =====
-- What other goroutines do to the event queue: how far it can grow, and a `Close` during a send.
use crabwise.Common.{
  ◌+◌, ◌≤◌, ◌≡◌, refl, true, false, List, [], ◌∷◌, arith, length, length-append, ◌==◌, Bool-cases,
  inl, inr,
}
use crabwise.Queue.{
  Queue, OverflowEvent, panic, panicked, Move, received, put, control_received, overflows, closes,
  policy_drop_oldest, tail, offer, move, moves, wait_offer, send_drop_oldest, send_block_timeout,
  send, first_offer_drop,
}

length-tail : {B : Type 0} → (xs : List B) → length (tail xs) ≤ length xs
length-tail [] = omega arith
length-tail (x ∷ xs) = omega arith

module _ {A : Type 0} where
  move-grows :
      (m : Move A) (q : Queue A)
      → length (move m q).ch + length (move m q).control ≤ length q.ch + length q.control + 1
  unfolding move
  move-grows received q = ground (arith, length-tail q.ch)
  move-grows (put e) q = ground (arith, length-append q.ch (e ∷ []))
  move-grows control_received q = ground (arith, length-tail q.control)
  move-grows (overflows evt) q = ground (arith, length-append q.control (evt ∷ []))
  move-grows closes q = ground arith

  -- Each move adds one value at most.
  pub moves-grow :
      (ms : List (Move A)) (q : Queue A)
      → length (moves ms q).ch + length (moves ms q).control
        ≤ length q.ch + length q.control + length ms
  unfolding moves
  moves-grow [] q = omega arith
  moves-grow (m ∷ ms) q = omega (arith, moves-grow ms (move m q), move-grows m q)

  -- A `Close` between the test of the closed flag and the channel operation makes `Send` panic,
  -- for every open queue, policy and event.
  pub send-close_race :
      (evt : OverflowEvent) (before after last : List (Move A)) (event : A) (q : Queue A)
      → q.closed ≡ false
      → send evt (closes ∷ []) before after last event q ≡ panicked
  unfolding send send_drop_oldest send_block_timeout first_offer_drop wait_offer moves move offer
  send-close_race evt before after last event q c =
      elim (Bool-cases (q.policy == policy_drop_oldest)) [
        | inl p ↦ rw (c, p)
        | inr p ↦ rw (c, p) (wait_panics before)
      ]
    where
      wait_panics :
          (ms : List (Move A))
          → wait_offer evt ms last event (record q { closed = true }) panic ≡ panicked
      wait_panics [] = refl
      wait_panics (m ∷ ms) = refl
