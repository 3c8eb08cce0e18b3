-- ===== src/Audit/Integrity/Laws.antt =====
-- What a verdict of VerifyIntegrity means.
use crabwise.Common.{
  ℕ, suc, ◌+◌, ◌≡◌, ◌≢◌, refl, sym, ap, ◌∙◌, ◌⊎◌, inl, inr, true, false, List, [], ◌∷◌, ◌++◌, map,
  Text, ◌==◌, ==_iff, arith, length, sort_by, insert_sorted, text_leb, Ascends, sort_by-Ascends,
  Bool-cases, subst,
}
use crabwise.Audit.Event.{AuditEvent}
use crabwise.Audit.Logger.{Services}
use crabwise.Audit.Logger.Chain.{genesis, last_hash, Chained}
use crabwise.Audit.Integrity.{Verdict, verify_rows, verify_integrity}

-- Each event names the hash of the one before it.
abbrev pub Linked : Text → List AuditEvent → Type 0
Linked prev [] = Unit
Linked prev (e ∷ es) = (e.prev_hash ≡ prev) × Linked e.event_hash es

-- The walk breaks at an event: what is before it is linked, and it names another hash.
pub record BreaksAt (prev : Text) (es : List AuditEvent) (total : ℕ) (id : Text) : Type 0 where
  pub before : List AuditEvent
  pub broken : AuditEvent
  pub after : List AuditEvent
  pub split : es ≡ before ++ broken ∷ after
  pub linked : Linked prev before
  pub differs : broken.prev_hash ≢ last_hash prev before
  pub position : total ≡ length before + 1
  pub named : broken.id ≡ id

abbrev Explained : Text → ℕ → List AuditEvent → Verdict → Type 0
Explained prev start es v =
    ((v.valid ≡ true) × Linked prev es × (v.total ≡ start + length es))
    ⊎ ((v.valid ≡ false) × (n : ℕ) × (v.total ≡ start + n) × BreaksAt prev es n v.broken_at)

verify_rows-Explained :
    (prev : Text) (start : ℕ) (es : List AuditEvent)
    → Explained prev start es (verify_rows prev start es)
unfolding verify_rows
verify_rows-Explained prev start [] = inl (refl, tt, omega arith)
verify_rows-Explained prev start (e ∷ es) = elim (Bool-cases (e.prev_hash == prev)) [
  | inr other ↦ rw other (
      inr (
        refl,
        1,
        refl,
        record {
          before = [];
          broken = e;
          after = es;
          split = refl;
          linked = tt;
          differs = λ same. cc ((==_iff e.prev_hash prev).1 same, other);
          position = refl;
          named = refl;
        },
      ))
  | inl same ↦ rw same (elim (verify_rows-Explained e.event_hash (start + 1) es) [
    | inl (valid, linked, total) ↦
        inl (valid, ((==_iff e.prev_hash prev).0 same, linked), omega arith)
    | inr (invalid, n, total, b) ↦ inr (
      invalid,
      suc n,
      omega arith,
      record {
        before = e ∷ b.before;
        broken = b.broken;
        after = b.after;
        split = ap (λ (l : List AuditEvent). e ∷ l) b.split;
        linked = ((==_iff e.prev_hash prev).0 same, b.linked);
        differs = b.differs;
        position = omega (arith, b.position);
        named = b.named;
      },
    )
  ])
]

-- The verdict is exact: it is valid with the number of rows where every row, in the order of the
-- timestamp text and the row ids, names the hash of the one before it (the first one genesis), and
-- otherwise it names the first row that does not, and counts the rows up to that one.
pub verify_integrity-Explained :
    (format_time : ℕ → Text) (events : List AuditEvent)
    → let rows = sort_by (λ e. format_time e.timestamp) events in
      let v = verify_integrity format_time events in
      ((v.valid ≡ true) × Linked genesis rows × (v.total ≡ length rows))
      ⊎ ((v.valid ≡ false) × BreaksAt genesis rows v.total v.broken_at)
unfolding verify_integrity
verify_integrity-Explained format_time events =
    let rows = sort_by (λ e. format_time e.timestamp) events in
    elim (verify_rows-Explained genesis 0 rows) [
      | inl (valid, linked, total) ↦ inl (valid, linked, omega arith)
      | inr (invalid, n, total, b) ↦
          let same : (verify_rows genesis 0 rows).total ≡ n = omega arith in
          inr (
            invalid,
            subst (λ (k : ℕ). BreaksAt genesis rows k (verify_rows genesis 0 rows).broken_at)
                (sym same) b,
          )
    ]

verify_rows-Linked :
    (prev : Text) (start : ℕ) (es : List AuditEvent)
    → Linked prev es
    → verify_rows prev start es ≡ record { valid = true; total = start + length es; broken_at = [] }
unfolding verify_rows
verify_rows-Linked prev start [] l =
    ap (λ (n : ℕ). record { valid = true; total = n; broken_at = [] }) (omega arith)
verify_rows-Linked prev start (e ∷ es) l = rw ((==_iff e.prev_hash prev).1 l.0) (
    verify_rows-Linked e.event_hash (start + 1) es l.1
    ∙ ap (λ (n : ℕ). record { valid = true; total = n; broken_at = [] }) (omega arith))

Chained-Linked :
    (services : Services) (prev : Text) (es : List AuditEvent)
    → Chained services prev es
    → Linked prev es
Chained-Linked services prev [] c = tt
Chained-Linked services prev (e ∷ es) c = (c.0, Chained-Linked services e.event_hash es c.2)

-- A hash chain from genesis whose timestamps, as text, never descend is found valid.
pub verify_integrity-Chained :
    (services : Services) (es : List AuditEvent)
    → Chained services genesis es
    → Ascends (λ e. services.format_time e.timestamp) es
    → verify_integrity services.format_time es
      ≡ record { valid = true; total = length es; broken_at = [] }
unfolding verify_integrity
verify_integrity-Chained services es c a =
    ap (verify_rows genesis 0) (sort_by-Ascends (λ e. services.format_time e.timestamp) es a)
    ∙ verify_rows-Linked genesis 0 es (Chained-Linked services genesis es c)
    ∙ ap (λ (n : ℕ). record { valid = true; total = n; broken_at = [] }) (omega arith)

-- A change of rows that leaves the id, the timestamp and the two hashes alone.
pub record KeepsLinks (f : AuditEvent → AuditEvent) : Type 0 where
  pub id : (e : AuditEvent) → (f e).id ≡ e.id
  pub timestamp : (e : AuditEvent) → (f e).timestamp ≡ e.timestamp
  pub prev_hash : (e : AuditEvent) → (f e).prev_hash ≡ e.prev_hash
  pub event_hash : (e : AuditEvent) → (f e).event_hash ≡ e.event_hash

module _ (format_time : ℕ → Text) {f : AuditEvent → AuditEvent} (k : KeepsLinks f) where
  abbrev key : AuditEvent → Text
  key e = format_time e.timestamp

  insert_sorted-map :
      (e : AuditEvent) (es : List AuditEvent)
      → insert_sorted key (f e) (map f es) ≡ map f (insert_sorted key e es)
  unfolding insert_sorted
  insert_sorted-map e [] = refl
  insert_sorted-map e (x ∷ es) =
      ground (arith, k.timestamp e, k.timestamp x, insert_sorted-map e es)

  sort_by-map : (es : List AuditEvent) → sort_by key (map f es) ≡ map f (sort_by key es)
  unfolding sort_by
  sort_by-map [] = refl
  sort_by-map (e ∷ es) = rw (sort_by-map es) (insert_sorted-map e (sort_by key es))

  verify_rows-map :
      (prev : Text) (n : ℕ) (es : List AuditEvent)
      → verify_rows prev n (map f es) ≡ verify_rows prev n es
  unfolding verify_rows
  verify_rows-map prev n [] = refl
  verify_rows-map prev n (e ∷ es) =
      ground (arith, k.id e, k.prev_hash e, k.event_hash e, verify_rows-map e.event_hash (n + 1) es)

  -- The stored hashes are never recomputed: whatever is changed in the other columns of any rows,
  -- the verdict stays the same.
  pub verify_integrity-KeepsLinks :
      (events : List AuditEvent)
      → verify_integrity format_time (map f events) ≡ verify_integrity format_time events
  unfolding verify_integrity
  verify_integrity-KeepsLinks events =
      ap (verify_rows genesis 0) (sort_by-map events)
      ∙ verify_rows-map genesis 0 (sort_by key events)

-- Two events chained in the order in which they were processed are found broken whenever the text of
-- the second timestamp sorts before that of the first.
pub verify_integrity-misordered :
    (services : Services) (a b : AuditEvent)
    → Chained services genesis (a ∷ b ∷ [])
    → a.event_hash ≢ genesis
    → text_leb (services.format_time a.timestamp) (services.format_time b.timestamp) ≡ false
    → verify_integrity services.format_time (a ∷ b ∷ [])
      ≡ record { valid = false; total = 1; broken_at = b.id }
unfolding verify_integrity verify_rows sort_by
verify_integrity-misordered services a b c n t = ground (arith, t, ==_iff b.prev_hash genesis)

pub verify_rows-append_broken :
    (prev : Text) (n : ℕ) (es : List AuditEvent) (e : AuditEvent)
    → Linked prev es
    → e.prev_hash ≢ last_hash prev es
    → verify_rows prev n (es ++ e ∷ [])
      ≡ record { valid = false; total = n + length es + 1; broken_at = e.id }
unfolding verify_rows
verify_rows-append_broken prev n [] e l d = ground (arith, ==_iff e.prev_hash prev)
verify_rows-append_broken prev n (x ∷ es) e l d = rw ((==_iff x.prev_hash prev).1 l.0) (
    verify_rows-append_broken x.event_hash (n + 1) es e l.1 d
    ∙ ap (λ (k : ℕ). record { valid = false; total = k; broken_at = e.id }) (omega arith))

-- A linked table in ascending order of the timestamp text is broken by a last row that names another
-- hash than that of the row before it.
pub verify_integrity-append_broken :
    (format_time : ℕ → Text) (es : List AuditEvent) (e : AuditEvent)
    → Linked genesis es
    → Ascends (λ x. format_time x.timestamp) (es ++ e ∷ [])
    → e.prev_hash ≢ last_hash genesis es
    → verify_integrity format_time (es ++ e ∷ [])
      ≡ record { valid = false; total = length es + 1; broken_at = e.id }
unfolding verify_integrity
verify_integrity-append_broken format_time es e l a d =
    ap (verify_rows genesis 0) (sort_by-Ascends (λ x. format_time x.timestamp) (es ++ e ∷ []) a)
    ∙ verify_rows-append_broken genesis 0 es e l d
    ∙ ap (λ (k : ℕ). record { valid = false; total = k; broken_at = e.id }) (omega arith)
