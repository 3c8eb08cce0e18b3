-- ===== src/OpenClaw/Laws.antt =====
-- The bound on the recent chats, and the choice of the chat for a request.
use crabwise.Common.{
  ℕ, ◌%◌, ◌^◌, ◌+◌, ◌-◌, ◌≤◌, ◌≡◌, refl, sym, ap, Bool, true, false, ◌&&◌, ◌||◌, Option, none, some,
  List, [], ◌∷◌, ◌++◌, ◌⊎◌, inl, inr, Text, lookup_or, length, length-drop, keep, All, ltb, nat_eq,
  arith, if◌then◌else◌, if-intro, subst,
}
use crabwise.OpenClaw.{
  RecentChat, Store, max_recent_chats, zero_session, record_chat, abs_duration, score_of, Best,
  Scan, scan_candidate, scan_chats, MatchResult, result_of, conclude, match_proxy_request,
}

-- Recording a chat leaves at most 256 chats, whatever was in the store.
pub record_chat-IsBounded :
    (run_id session_key provider model : Text) (ts : ℕ) (s : Store)
    → length (record_chat run_id session_key provider model ts s).chats ≤ max_recent_chats
unfolding record_chat
record_chat-IsBounded run_id session_key provider model ts s =
    let chat : RecentChat = record {
      run_id = run_id;
      session_key = session_key;
      provider = provider;
      model = model;
      timestamp = ts;
    } in
    let chats = s.chats ++ chat ∷ [] in
    ground (arith, length-drop (length chats - max_recent_chats) chats)

-- The chats in the window with their score and distance, the latest first.
abbrev pub candidates : ℕ → ℕ → Text → Text → List RecentChat → List Best → List Best
candidates window ts provider model [] seen = seen
candidates window ts provider model (chat ∷ chats) seen =
    if ltb window (abs_duration ts chat.timestamp)
    then candidates window ts provider model chats seen
    else candidates window ts provider model chats (
        record {
          chat = chat;
          score = score_of provider model chat;
          delta = abs_duration ts chat.timestamp;
        }
        ∷ seen)

-- A higher score, or the same score and nearer in time.
abbrev pub beats : Best → Best → Bool
beats a b = ltb b.score a.score || (nat_eq a.score b.score && ltb a.delta b.delta)

abbrev pub ties : Best → Best → Bool
ties b a = nat_eq a.score b.score && nat_eq a.delta b.delta

abbrev pub count_ties : Best → List Best → ℕ
count_ties b cs = length (keep (ties b) cs)

abbrev pub Unbeaten : Best → List Best → Type 0
Unbeaten b cs = All (λ c. beats c b ≡ false) cs

-- The scan has a best candidate exactly if there is one; no candidate beats it; it is tied exactly
-- if another candidate has the same score and distance.
abbrev pub Explains : List Best → Scan → Type 0
Explains cs s = elim s.best [
  | none ↦ cs ≡ []
  | some b ↦
      ((l : List Best) × (r : List Best) × (cs ≡ l ++ (b ∷ r)))
      × Unbeaten b cs
      × (if s.tied then 2 ≤ count_ties b cs else count_ties b cs ≡ 1)
]

Unbeaten-trans : (a b : Best) (cs : List Best) → beats a b ≡ true → Unbeaten b cs → Unbeaten a cs
Unbeaten-trans a b [] h u = tt
Unbeaten-trans a b (c ∷ cs) h (p, u) = (ground arith, Unbeaten-trans a b cs h u)

count_ties-beaten :
    (a b : Best) (cs : List Best) → beats a b ≡ true → Unbeaten b cs → count_ties a cs ≡ 0
count_ties-beaten a b [] h u = refl
count_ties-beaten a b (c ∷ cs) h (p, u) = ground (arith, count_ties-beaten a b cs h u)

scan_some :
    (c b : Best) (tied : Bool) (cs : List Best)
    → Explains cs (record { best = some b; tied = tied })
    → Explains (c ∷ cs) (scan_candidate c (record { best = some b; tied = tied }))
unfolding scan_candidate
scan_some c b tied cs ((l, r, at), u, n) =
    if-intro (Explains (c ∷ cs)) (beats c b) _ _
      (λ better. (
        ([], cs, refl),
        (ground arith, Unbeaten-trans c b cs better u),
        ground (arith, count_ties-beaten c b cs better u),
      ))
      (λ worse.
        if-intro (Explains (c ∷ cs)) (ties b c) _ _
          (λ tie. ((c ∷ l, r, ap (λ (t : List Best). c ∷ t) at), (worse, u), ground arith))
          (λ apart. ((c ∷ l, r, ap (λ (t : List Best). c ∷ t) at), (worse, u), ground arith)))

scan_candidate-Explains :
    (c : Best) (s : Scan) (cs : List Best) → Explains cs s → Explains (c ∷ cs) (scan_candidate c s)
scan_candidate-Explains c s cs h = go s.best s.tied h
  where
    go :
        (best : Option Best) (tied : Bool)
        → Explains cs (record { best = best; tied = tied })
        → Explains (c ∷ cs) (scan_candidate c (record { best = best; tied = tied }))
    go (some b) tied h = scan_some c b tied cs h
    go none tied h =
        unfold scan_candidate in
        subst (λ (t : List Best). Explains (c ∷ t) (record { best = some c; tied = false })) (sym h)
          (([], [], refl), (ground arith, tt), ground arith)

Explains-if :
    (far : Bool) (cs ds : List Best) (s t : Scan)
    → Explains cs s
    → Explains ds t
    → Explains (if far then cs else ds) (if far then s else t)
Explains-if true cs ds s t h k = h
Explains-if false cs ds s t h k = k

scan_chats-Explains :
    (window ts : ℕ) (provider model : Text) (chats : List RecentChat) (s : Scan) (seen : List Best)
    → Explains seen s
    → Explains
        (candidates window ts provider model chats seen)
        (scan_chats window ts provider model chats s)
unfolding scan_chats
scan_chats-Explains window ts provider model [] s seen h = h
scan_chats-Explains window ts provider model (chat ∷ chats) s seen h =
    let new : Best = record {
      chat = chat;
      score = score_of provider model chat;
      delta = abs_duration ts chat.timestamp;
    } in
    let far = ltb window (abs_duration ts chat.timestamp) in
    let rest = λ (s' : Scan) (seen' : List Best) (k : Explains seen' s').
      scan_chats-Explains window ts provider model chats s' seen' k in
    Explains-if far _ _ _ _ (rest s seen h)
      (rest (scan_candidate new s) (new ∷ seen) (scan_candidate-Explains new s seen h))

-- What the correlation of a request answers, given its candidates.
abbrev pub Correlates : List Best → Store → Option MatchResult × Store → Type 0
Correlates cs s (result, after) =
    ((cs ≡ []) × (result ≡ none) × (after ≡ s))
    ⊎ ((b : Best) × ((l : List Best) × (r : List Best) × (cs ≡ l ++ (b ∷ r)))
        × Unbeaten b cs
        × (((count_ties b cs ≡ 1)
              × (result
                  ≡ some (result_of b.chat (lookup_or b.chat.session_key s.sessions zero_session)))
              × (after ≡ record s { matches = (s.matches + 1) % 2 ^ 64 }))
            ⊎ ((2 ≤ count_ties b cs)
                × (result ≡ none)
                × (after ≡ record s { ambiguous = (s.ambiguous + 1) % 2 ^ 64 }))))

conclude-Correlates :
    (scan : Scan) (s : Store) (cs : List Best)
    → Explains cs scan
    → Correlates cs s (conclude scan s)
unfolding conclude
conclude-Correlates scan s cs h = go scan.best scan.tied h
  where
    go :
        (best : Option Best) (tied : Bool)
        → Explains cs (record { best = best; tied = tied })
        → Correlates cs s (conclude (record { best = best; tied = tied }) s)
    go none tied h = inl (h, refl, refl)
    go (some b) true (at, u, n) = inr (b, at, u, inr (n, refl, refl))
    go (some b) false (at, u, n) = inr (b, at, u, inl (n, refl, refl))

-- A request is matched to a recent chat within the window that no other one beats in score and then
-- in distance in time, provided it is the only such chat, and the counter of matches goes up by
-- one modulo 2 ^ 64; with two or more such chats there is no match and that of ambiguous requests does; with no chat in
-- the window there is no match and nothing changes.
pub match_proxy_request-Correlates :
    (ts : ℕ) (provider model : Text) (s : Store)
    → Correlates
        (candidates s.correlation_window ts provider model s.chats [])
        s
        (match_proxy_request ts provider model s)
unfolding match_proxy_request
match_proxy_request-Correlates ts provider model s = conclude-Correlates _ s _ (
    scan_chats-Explains s.correlation_window ts provider model s.chats
      (record { best = none; tied = false }) [] refl)
