-- ===== src/Commandments/Redaction/Laws.antt =====
-- What the redaction changes, and how much.
use crabwise.Common.{
  ℕ, zero, suc, ◌+◌, ◌-◌, ◌*◌, ◌≤◌, ◌<◌, ◌≡◌, refl, ◌⊎◌, inl, inr, Bool, true, ◌&&◌, List, [], ◌∷◌,
  ◌++◌, Text, length, take, drop, length-append, length-drop, length-take-le, arith, codes, lt→ltb,
  ltb, leb, if-intro,
}
use crabwise.Audit.Event.{AuditEvent}
use crabwise.Commandments.{Host, max_redaction_field_bytes}
use crabwise.Commandments.Redaction.{
  redaction_replacement, oversized_marker, slice, truncate_oversized, splice, Redactor,
  replace_matches, replace_with_limit, Applied, apply_pattern, apply_loop, apply_patterns,
  redact_triggered, redact,
}

-- Ordered, disjoint matches in a text of `n` bytes, from position `prev` on, as FindAllStringIndex
-- documents them.
abbrev pub AreMatches : ℕ → ℕ → List (ℕ × ℕ) → Type 0
AreMatches n prev [] = prev ≤ n
AreMatches n prev ((start, end) ∷ ms) = (prev ≤ start) × (start ≤ end) × AreMatches n end ms

-- The bytes that the matches cover.
abbrev pub covered : List (ℕ × ℕ) → ℕ
covered [] = 0
covered ((start, end) ∷ ms) = (end - start) + covered ms

AreMatches-le : (n prev : ℕ) (ms : List (ℕ × ℕ)) → AreMatches n prev ms → prev ≤ n
AreMatches-le n prev [] h = h
AreMatches-le n prev ((start, end) ∷ ms) (p, q, h) = omega (arith, AreMatches-le n end ms h)

length-take : {A : Type 0} (k : ℕ) (xs : List A) → k ≤ length xs → length (take k xs) ≡ k
length-take zero xs h = refl
length-take (suc k) [] h = absurd (omega arith)
length-take (suc k) (x ∷ xs) h = omega (arith, length-take k xs (omega arith))

-- For ordered, disjoint matches, a spliced text loses exactly the bytes that the matches cover, and
-- gains the replacement once for each match.
pub length-splice :
    (s : Text) (prev : ℕ) (ms : List (ℕ × ℕ))
    → AreMatches (length s) prev ms
    → length (splice s prev ms) + covered ms + prev ≡ length s + 10 * length ms
unfolding splice
length-splice s prev [] h = omega (arith, length-drop prev s)
length-splice s prev ((start, end) ∷ ms) (p, q, h) =
    let tail = redaction_replacement ++ splice s end ms in
    let parts : length (splice s prev ((start, end) ∷ ms))
        ≡ length (slice s prev start) + length tail =
      length-append (slice s prev start) tail in
    omega (
      arith,
      parts,
      AreMatches-le (length s) end ms h,
      length-take (start - prev) (drop prev s)
          (omega (arith, length-drop prev s, AreMatches-le (length s) end ms h)),
      length-splice s end ms h,
    )

take-AreMatches :
    (n prev k : ℕ) (ms : List (ℕ × ℕ)) → AreMatches n prev ms → AreMatches n prev (take k ms)
take-AreMatches n prev zero ms h = AreMatches-le n prev ms h
take-AreMatches n prev (suc k) [] h = h
take-AreMatches n prev (suc k) ((start, end) ∷ ms) (p, q, h) = (p, q, take-AreMatches n end k ms h)

length-truncate_oversized : (s : Text) → length (truncate_oversized s) ≤ 288
unfolding truncate_oversized
length-truncate_oversized s =
    let marker = codes "..." ++ oversized_marker in
    if-intro (λ (p : Text). length (p ++ marker) ≤ 288) (ltb 256 (length s)) (take 256 s) s
      (λ _.
        let parts : length (take 256 s ++ marker) ≡ length (take 256 s) + length marker =
          length-append (take 256 s) marker in
        omega (arith, parts, length-take-le 256 s))
      (λ small.
        let parts : length (s ++ marker) ≡ length s + length marker = length-append s marker in
        ground (arith, parts, small))

-- What FindAllStringIndex documents of its matches.
abbrev pub FindsMatches : Host → Type 0
FindsMatches host =
    (re : host.Regex) (s : Text) (n : ℕ) → AreMatches (length s) 0 (host.find_all re s n)

module _ (host : Host) where
  -- The text does not grow by more than ten bytes for each replacement used up.
  abbrev Grows : Applied → Applied → Type 0
  Grows a b = length b.out + 10 * b.remaining ≤ length a.out + 10 * a.remaining

  replace_matches_growth :
      (s : Text) (ms : List (ℕ × ℕ)) (limit : ℕ)
      → AreMatches (length s) 0 ms
      → length ms ≤ limit
      → ((replace_matches host s ms).1 ≤ limit)
        × (length (replace_matches host s ms).0 ≤ length s + 10 * (replace_matches host s ms).1)
  unfolding replace_matches
  replace_matches_growth s [] limit a h = omega arith
  replace_matches_growth s (m ∷ ms) limit a h = omega (arith, length-splice s 0 (m ∷ ms) a)

  replace_with_limit_growth :
      (finds : FindsMatches host) (s : Text) (re : host.Regex) (limit : ℕ)
      → ((replace_with_limit host s re limit).1 ≤ limit)
        × (length (replace_with_limit host s re limit).0
            ≤ length s + 10 * (replace_with_limit host s re limit).1)
  unfolding replace_with_limit
  replace_with_limit_growth finds s re limit =
      let ms = host.find_all re s (limit + 1) in
      let a = finds re s (limit + 1) in
      if-intro (λ (r : Text × ℕ). (r.1 ≤ limit) × (length r.0 ≤ length s + 10 * r.1)) (leb limit 0)
        _ _ (λ _. omega arith)
        λ _.
          if-intro
            (λ (l : List (ℕ × ℕ)).
              ((replace_matches host s l).1 ≤ limit)
              × (length (replace_matches host s l).0
                  ≤ length s + 10 * (replace_matches host s l).1))
            (ltb limit (length ms)) (take limit ms) ms
            (λ _.
              replace_matches_growth s (take limit ms) limit (take-AreMatches _ 0 limit ms a)
                (length-take-le limit ms))
            (λ few. replace_matches_growth s ms limit a (ground arith))

  apply_pattern-Grows :
      (a : Applied) (r : Text × ℕ)
      → r.1 ≤ a.remaining
      → length r.0 ≤ length a.out + 10 * r.1
      → Grows a (apply_pattern host a r)
  unfolding apply_pattern
  apply_pattern-Grows a (next, replaced) h k = ground arith

  apply_loop-Grows :
      (finds : FindsMatches host) (res : List host.Regex) (a : Applied)
      → Grows a (apply_loop host res a)
  unfolding apply_loop
  apply_loop-Grows finds [] a = omega arith
  apply_loop-Grows finds (re ∷ res) a =
      let r = replace_with_limit host a.out re a.remaining in
      let (few, short) = replace_with_limit_growth finds a.out re a.remaining in
      let step = apply_pattern-Grows a r few short in
      if-intro (Grows a) (leb a.remaining 0) a _ (λ _. omega arith)
        λ _. omega (arith, step, apply_loop-Grows finds res (apply_pattern host a r))

  redact_triggered-Grows :
      (finds : FindsMatches host) (r : Redactor host) (triggered : Bool) (a : Applied)
      → Grows a (redact_triggered host r triggered a)
  unfolding redact_triggered apply_patterns
  redact_triggered-Grows finds r triggered a =
      if-intro (Grows a) (triggered && ltb 0 a.remaining) _ _
        (λ _. apply_loop-Grows finds r.rule_triggered _) (λ _. omega arith)

  -- With matches as FindAllStringIndex documents them, arguments of more than 1 MiB leave the
  -- redaction with at most 788 bytes: the preview with its marker, and ten bytes for each of the fifty
  -- replacements that the two stages share.
  pub redact-oversized :
      (finds : FindsMatches host) (r : Redactor host) (e : AuditEvent) (triggered : Bool)
      → max_redaction_field_bytes < length e.arguments
      → (length (redact host r e triggered).arguments ≤ 788)
        × ((redact host r e triggered).redacted ≡ true)
  unfolding redact
  redact-oversized finds r e triggered big = rw (lt→ltb _ _ big) (
    omega (
      arith,
      length-truncate_oversized e.arguments,
      apply_loop-Grows finds r.always_on _,
      redact_triggered-Grows finds r triggered _,
    ),
    refl,
  )

  -- The redaction leaves an event as it is, or marks it as redacted.
  pub redact-cases :
      (r : Redactor host) (e : AuditEvent) (triggered : Bool)
      → (redact host r e triggered ≡ e) ⊎ ((redact host r e triggered).redacted ≡ true)
  unfolding redact
  redact-cases r e triggered =
      if-intro (λ (x : AuditEvent). (x ≡ e) ⊎ (x.redacted ≡ true)) _ _ e (λ _. inr refl)
        (λ _. inl refl)

  pub redact-outcome :
      (r : Redactor host) (e : AuditEvent) (triggered : Bool)
      → (redact host r e triggered).outcome ≡ e.outcome
  unfolding redact
  redact-outcome r e triggered =
      if-intro (λ (x : AuditEvent). x.outcome ≡ e.outcome) _ _ e (λ _. refl) (λ _. refl)
