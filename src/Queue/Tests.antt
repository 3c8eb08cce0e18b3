-- ===== src/Queue/Tests.antt =====
-- The theorems of the queue at concrete queues and histories.
use crabwise.Common.{ℕ, ◌+◌, ◌%◌, ◌^◌, ◌≡◌, refl, arith, false, List, [], ◌∷◌, ◌++◌, codes}
use crabwise.Queue.{Queue, OverflowEvent, closes, send, accepted, panicked, policy_drop_oldest}
use crabwise.Queue.Laws.{send-close_race}
use crabwise.Queue.Account.{
  Call, sends, receives, start, run, Balances, run-new-Balances, send-drop_oldest_full,
}

abbrev overflow_event : OverflowEvent
overflow_event = record { id = codes "overflow-1"; timestamp = 7 }

abbrev full_queue : Queue ℕ
full_queue = record {
  ch = 1 ∷ 2 ∷ [];
  capacity = 2;
  control = [];
  policy = policy_drop_oldest;
  dropped = 0;
  overflow = 0;
  closed = false;
}

send-close_race_example : send overflow_event (closes ∷ []) [] [] [] 3 full_queue ≡ panicked
send-close_race_example = send-close_race overflow_event [] [] [] 3 full_queue refl

send-drop_oldest_full_example :
    (q' : Queue ℕ) × (send overflow_event [] [] [] [] 3 full_queue ≡ accepted q')
    × (q'.ch ≡ (2 ∷ []) ++ 3 ∷ [])
    × (q'.dropped ≡ (0 + 1) % 2 ^ 64)
    × (q'.overflow ≡ (0 + 1) % 2 ^ 64)
send-drop_oldest_full_example =
    send-drop_oldest_full overflow_event 3 1 (2 ∷ []) full_queue refl refl refl refl

abbrev history : List (Call ℕ)
history = sends overflow_event 1 ∷ sends overflow_event 2 ∷ receives ∷ []

run-new-Balances_example : Balances (run history (start 1 policy_drop_oldest))
run-new-Balances_example = run-new-Balances 1 policy_drop_oldest history (omega arith)
