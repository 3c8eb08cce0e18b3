-- ===== src/Queue/Account.antt =====
-- The queue as the producer and the consumer use it one call at a time: what drop-oldest keeps, and
-- the account of every event.
use crabwise.Common.{
  ℕ, ◌+◌, ◌-◌, ◌≤◌, ◌<◌, ◌^◌, ◌≡◌, refl, true, false, List, [], ◌∷◌, ◌++◌, arith, length, ◌∙◌, ◌%◌,
  ==_iff, ap, sym, ltb, length-append, Text, ◌==◌, Bool-cases, inl, inr, if-intro, if◌then◌else◌,
}
use crabwise.Queue.{
  Queue, OverflowEvent, Offer, sent, full, panic, Sent, accepted, rejected, panicked,
  policy_drop_oldest, tail, offer, evict_from, evict, emit_overflow, moves, wait_offer,
  control_capacity, count_up, send_drop_oldest, send_block_timeout, send, new, close,
  first_offer_drop, second_offer,
}

pub data Call (A : Type 0) : Type 0 where
  sends : OverflowEvent → A → Call A
  receives : Call A
  closes : Call A

-- The queue with the number of events received and the number of sends begun while it was open.
pub record Tally (A : Type 0) : Type 0 where
  pub queue : Queue A
  pub got : ℕ
  pub tried : ℕ

module _ {A : Type 0} where
  abbrev pub result : Queue A → Sent A → Queue A
  result q (accepted q') = q'
  result q (rejected q') = q'
  result q panicked = q

  pub step : Call A → Tally A → Tally A
  step (sends evt event) t = record t {
    queue = result t.queue (send evt [] [] [] [] event t.queue);
    tried = if t.queue.closed then t.tried else t.tried + 1;
  }
  step receives t = record t {
    queue = record t.queue { ch = tail t.queue.ch };
    got = t.got + (length t.queue.ch - length (tail t.queue.ch));
  }
  step closes t = record t { queue = close t.queue }

  pub run : List (Call A) → Tally A → Tally A
  run [] t = t
  run (c ∷ cs) t = run cs (step c t)

  -- Every send is accounted for: received, still buffered, or counted as dropped.
  pub record Balances (t : Tally A) : Type 0 where
    pub sum : t.got + length t.queue.ch + t.queue.dropped ≡ t.tried

  abbrev Accounts : Queue A → Sent A → Type 0
  Accounts q r = length (result q r).ch + (result q r).dropped ≡ length q.ch + q.dropped + 1

  second_offer-Accounts :
      (evt : OverflowEvent) (event : A) (q q₁ : Queue A)
      → q₁.closed ≡ false
      → q₁.dropped < 2 ^ 64 - 1
      → length q₁.ch + q₁.dropped ≡ length q.ch + q.dropped
      → Accounts q (second_offer evt [] q₁ (offer event q₁))
  unfolding second_offer offer emit_overflow moves
  second_offer-Accounts evt event q q₁ c d e = ground (arith, length-append q₁.ch (event ∷ []))

  evict-account :
      (q : Queue A)
      → q.dropped < 2 ^ 64 - 1
      → length (evict q).ch + (evict q).dropped ≡ length q.ch + q.dropped
  unfolding evict
  evict-account q d = go q.ch refl
    where
      go :
          (xs : List A)
          → q.ch ≡ xs
          → length (evict_from xs q).ch + (evict_from xs q).dropped ≡ length q.ch + q.dropped
      go [] e = refl
      go (x ∷ xs) e = ground arith

  evict-closed : (q : Queue A) → (evict q).closed ≡ q.closed
  unfolding evict
  evict-closed q = go q.ch
    where
      go : (xs : List A) → (evict_from xs q).closed ≡ q.closed
      go [] = refl
      go (x ∷ xs) = refl

  evict-dropped : (q : Queue A) → (evict q).dropped ≤ q.dropped + 1
  unfolding evict
  evict-dropped q = go q.ch
    where
      go : (xs : List A) → (evict_from xs q).dropped ≤ q.dropped + 1
      go [] = omega arith
      go (x ∷ xs) = omega arith

  offer-account :
      (event : A) (q q' : Queue A)
      → offer event q ≡ sent q'
      → length q'.ch + q'.dropped ≡ length q.ch + q.dropped + 1
  unfolding offer
  offer-account event q q' s = ground (arith, length-append q.ch (event ∷ []))

  drop_oldest-Accounts :
      (evt : OverflowEvent) (event : A) (q : Queue A) (o : Offer A)
      → offer event q ≡ o
      → q.closed ≡ false
      → q.dropped < 2 ^ 64 - 2
      → Accounts q (first_offer_drop evt [] [] [] event q o)
  unfolding first_offer_drop moves
  drop_oldest-Accounts evt event q (sent q') s c d = offer-account event q q' s
  drop_oldest-Accounts evt event q full s c d =
      second_offer-Accounts evt event q (evict q) (evict-closed q ∙ c)
        (omega (arith, evict-dropped q)) (evict-account q (omega arith))
  drop_oldest-Accounts evt event q panic s c d = unfold offer in ground arith

  wait_offer-Accounts :
      (evt : OverflowEvent) (event : A) (q : Queue A) (o : Offer A)
      → offer event q ≡ o
      → q.closed ≡ false
      → q.dropped < 2 ^ 64 - 2
      → Accounts q (wait_offer evt [] [] event q o)
  unfolding wait_offer offer emit_overflow moves
  wait_offer-Accounts evt event q (sent q') s c d = offer-account event q q' s
  wait_offer-Accounts evt event q full s c d = ground arith
  wait_offer-Accounts evt event q panic s c d = ground arith

  send-Accounts :
      (evt : OverflowEvent) (event : A) (q : Queue A)
      → q.closed ≡ false
      → q.dropped < 2 ^ 64 - 2
      → Accounts q (send evt [] [] [] [] event q)
  unfolding send send_drop_oldest send_block_timeout moves
  send-Accounts evt event q c d =
      if-intro (Accounts q) q.closed _ _ (λ o. cc)
        λ _.
          if-intro (Accounts q) (q.policy == policy_drop_oldest) _ _
            (λ p. drop_oldest-Accounts evt event q _ refl c d)
            (λ p. wait_offer-Accounts evt event q _ refl c d)

  send_closed :
      (evt : OverflowEvent) (event : A) (q : Queue A)
      → q.closed ≡ true
      → send evt [] [] [] [] event q ≡ rejected q
  unfolding send
  send_closed evt event q c = ground arith

  length-tail : (xs : List A) → length (tail xs) ≤ length xs
  length-tail [] = omega arith
  length-tail (x ∷ xs) = omega arith

  sends-Balances :
      (evt : OverflowEvent) (event : A) (t : Tally A)
      → t.tried < 2 ^ 64 - 2
      → Balances t
      → Balances (step (sends evt event) t)
  unfolding step
  sends-Balances evt event t n b = elim (Bool-cases t.queue.closed) [
    | inl c ↦ ground (arith, send_closed evt event t.queue c)
    | inr c ↦ let a = send-Accounts evt event t.queue c (omega (arith, b.sum)) in ground (arith, a)
  ]

  step-Balances :
      (c : Call A) (t : Tally A) → t.tried < 2 ^ 64 - 2 → Balances t → Balances (step c t)
  unfolding step close
  step-Balances (sends evt event) t n b = sends-Balances evt event t n b
  step-Balances receives t n b = ground (arith, length-tail t.queue.ch)
  step-Balances closes t n b = ground arith

  step-tried : (c : Call A) (t : Tally A) → (step c t).tried ≤ t.tried + 1
  unfolding step
  step-tried (sends evt event) t = ground arith
  step-tried receives t = omega arith
  step-tried closes t = omega arith

  run-Balances :
      (cs : List (Call A)) (t : Tally A)
      → t.tried + length cs < 2 ^ 64 - 2
      → Balances t
      → Balances (run cs t)
  unfolding run
  run-Balances [] t n b = b
  run-Balances (c ∷ cs) t n b =
      run-Balances cs (step c t) (omega (arith, step-tried c t)) (step-Balances c t (omega arith) b)

  abbrev pub start : ℕ → Text → Tally A
  start capacity policy = record { queue = new capacity policy; got = 0; tried = 0 }

  -- After any history of fewer than 2^64 - 2 sends, receives and closes, one at a time, on a new queue of any
  -- capacity and policy, each event sent while the queue was open was received, is buffered, or is
  -- counted in `dropped`: the three add up to the number of sends.
  pub run-new-Balances :
      (capacity : ℕ) (policy : Text) (cs : List (Call A))
      → length cs < 2 ^ 64 - 2
      → Balances (run cs (start capacity policy))
  run-new-Balances capacity policy cs n =
      run-Balances cs (start capacity policy) (omega arith) (unfold new in omega arith)

  offer-open_full :
      (event : A) (q : Queue A) → q.closed ≡ false → length q.ch ≡ q.capacity → offer event q ≡ full
  unfolding offer
  offer-open_full event q c e = ground arith

  evicted :
      (x : A) (rest : List A) (q : Queue A)
      → q.ch ≡ x ∷ rest
      → evict q ≡ record q { ch = rest; dropped = (q.dropped + 1) % 2 ^ 64 }
  unfolding evict evict_from
  evicted x rest q e = rw (e, evict_from)

  -- What a full queue looks like after its oldest event made room for a new one.
  abbrev turned : OverflowEvent → A → List A → Queue A → Queue A
  turned evt event rest q = record q {
    ch = rest ++ event ∷ [];
    control = if ltb (length q.control) control_capacity then q.control ++ evt ∷ [] else q.control;
    dropped = count_up q.dropped;
    overflow = count_up q.overflow;
  }

  second_offer-turned :
      (evt : OverflowEvent) (event x : A) (rest : List A) (q : Queue A)
      → q.closed ≡ false
      → length (x ∷ rest) ≡ q.capacity
      → let q₁ = record q { ch = rest; dropped = count_up q.dropped } in
        second_offer evt [] q₁ (offer event q₁) ≡ accepted (turned evt event rest q)
  unfolding second_offer offer emit_overflow moves
  second_offer-turned evt event x rest q c f = ground arith

  -- On an open queue with the drop-oldest policy whose buffer is full, a send by itself is accepted:
  -- the oldest event goes, the others keep their order, the new one is last, and both counters go up
  -- by one.
  pub send-drop_oldest_full :
      (evt : OverflowEvent) (event x : A) (rest : List A) (q : Queue A)
      → q.closed ≡ false
      → q.policy ≡ policy_drop_oldest
      → q.ch ≡ x ∷ rest
      → length q.ch ≡ q.capacity
      → (q' : Queue A) × (send evt [] [] [] [] event q ≡ accepted q')
        × (q'.ch ≡ rest ++ event ∷ [])
        × (q'.dropped ≡ (q.dropped + 1) % 2 ^ 64)
        × (q'.overflow ≡ (q.overflow + 1) % 2 ^ 64)
  unfolding send send_drop_oldest first_offer_drop second_offer moves
  send-drop_oldest_full evt event x rest q c p e f = (
    turned evt event rest q,
    opened
        ∙ ap (first_offer_drop evt [] [] [] event q) (offer-open_full event q c f)
        ∙ ap (λ z. second_offer evt [] z (offer event z)) (evicted x rest q e)
        ∙ second_offer-turned evt event x rest q c (sym (ap length e) ∙ f),
    refl,
    refl,
    refl,
  )
    where
      opened : send evt [] [] [] [] event q ≡ first_offer_drop evt [] [] [] event q (offer event q)
      opened = ground (arith, (==_iff q.policy policy_drop_oldest).1 p)
