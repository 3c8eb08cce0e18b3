-- ===== src/Audit/Logger/Chain.antt =====
-- The hash chain that the logger builds: the events persisted and batched, in the order processed.
use crabwise.Common.{
  ◌≡◌, refl, sym, ap, ◌∙◌, ap₂, ◌⊎◌, inl, inr, false, some, List, [], ◌∷◌, ◌++◌, map, Text, codes,
  arith, append_assoc, append-nil, length, member, if-intro, subst, Distinct, Distinct-append,
  Distinct-middle,
}
use mathlib.Core.List.{map-append}
use crabwise.Audit.Event.{AuditEvent, row_of}
use crabwise.Audit.Canonical.{compute_hash}
use crabwise.Audit.Canonical.Fields.{hashed_fields}
use crabwise.Audit.Canonical.Injective.{IsEncodableEvent, Collision, compute_hash-binding}
use crabwise.Audit.Logger.{
  Services, EventStore, Logger, flush, chain_event, process_event, apply_commandments, link,
}

abbrev pub genesis : Text
genesis = codes "genesis"

-- The hash at the end of a chain that starts after `prev`.
abbrev pub last_hash : Text → List AuditEvent → Text
last_hash prev [] = prev
last_hash prev (e ∷ es) = last_hash e.event_hash es

pub last_hash-append :
    (prev : Text) (es : List AuditEvent) (e : AuditEvent)
    → last_hash prev (es ++ e ∷ []) ≡ e.event_hash
last_hash-append prev [] e = refl
last_hash-append prev (x ∷ es) e = last_hash-append x.event_hash es e

abbrev pub event_ids : List AuditEvent → List Text
event_ids = map (λ e. e.id)

abbrev pub DistinctIds : List AuditEvent → Type 0
DistinctIds es = Distinct (event_ids es)

-- A store whose transaction appends a batch with new, distinct ids; an anchor leaves the events alone.
pub record StoreLaws (store : EventStore) : Type 0 where
  pub stored : store.Db → List AuditEvent
  pub insert-stored :
      (batch : List AuditEvent) (db db' : store.Db)
      → DistinctIds (stored db ++ map row_of batch)
      → store.insert_events batch db ≡ some db'
      → stored db' ≡ stored db ++ map row_of batch
  pub anchor-stored :
      (epoch id hash : Text) (db : store.Db)
      → stored (store.insert_chain_anchor epoch id hash db) ≡ stored db

event_ids-append : (es fs : List AuditEvent) → event_ids (es ++ fs) ≡ event_ids es ++ event_ids fs
event_ids-append = map-append (λ e. e.id)

-- No event of the list has the id.
abbrev pub IsNewId : Text → List AuditEvent → Type 0
IsNewId id es = member id (event_ids es) ≡ false

DistinctIds-append :
    (es : List AuditEvent) (e : AuditEvent)
    → DistinctIds es
    → IsNewId e.id es
    → DistinctIds (es ++ e ∷ [])
DistinctIds-append es e d n =
    subst Distinct (sym (event_ids-append es (e ∷ []))) (Distinct-append (event_ids es) e.id d n)

module _ (services : Services) where
  open services use {format_time, sha256_hex}

  -- Each event holds the hash before it and its own hash over its fields and that one.
  abbrev pub Chained : Text → List AuditEvent → Type 0
  Chained prev [] = Unit
  Chained prev (e ∷ es) =
      (e.prev_hash ≡ prev)
      × (e.event_hash ≡ compute_hash format_time sha256_hex e prev)
      × Chained e.event_hash es

  Chained-append :
      (prev : Text) (es : List AuditEvent) (e : AuditEvent)
      → Chained prev es
      → e.prev_hash ≡ last_hash prev es
      → e.event_hash ≡ compute_hash format_time sha256_hex e (last_hash prev es)
      → Chained prev (es ++ e ∷ [])
  Chained-append prev [] e c p h = (p, h, tt)
  Chained-append prev (x ∷ es) e c p h = (c.0, c.1, Chained-append x.event_hash es e c.2 p h)

  link-hash :
      (prev : Text) (e : AuditEvent)
      → (link services prev e).event_hash
        ≡ compute_hash format_time sha256_hex (row_of (link services prev e)) prev
  unfolding link compute_hash
  link-hash prev e = refl

  link-prev : (prev : Text) (e : AuditEvent) → (link services prev e).prev_hash ≡ prev
  unfolding link
  link-prev prev e = refl

  link-id : (prev : Text) (e : AuditEvent) → (link services prev e).id ≡ e.id
  unfolding link
  link-id prev e = refl

  abbrev pub SameFields : List AuditEvent → List AuditEvent → Type 0
  SameFields [] [] = Unit
  SameFields (a ∷ es) (b ∷ fs) =
      (hashed_fields format_time a ≡ hashed_fields format_time b) × SameFields es fs
  SameFields _ _ = ⊥

  abbrev pub AllEncodable : List AuditEvent → Type 0
  AllEncodable [] = Unit
  AllEncodable (e ∷ es) = IsEncodableEvent format_time e × AllEncodable es

  -- The last hash commits to the whole log: two chains of the same length, over any two starting
  -- hashes, that end in the same hash have the same hashed fields event by event and the same start,
  -- or exhibit a collision of the hash function.
  pub last_hash-binding :
      (es fs : List AuditEvent) (p q : Text)
      → length es ≡ length fs
      → AllEncodable es
      → AllEncodable fs
      → Chained p es
      → Chained q fs
      → last_hash p es ≡ last_hash q fs
      → (SameFields es fs × (p ≡ q)) ⊎ Collision sha256_hex
  last_hash-binding [] [] p q l h k c d e = inl (tt, e)
  last_hash-binding [] (b ∷ fs) p q l h k c d e = absurd (omega arith)
  last_hash-binding (a ∷ es) [] p q l h k c d e = absurd (omega arith)
  last_hash-binding (a ∷ es) (b ∷ fs) p q l h k c d e =
      elim (last_hash-binding es fs a.event_hash b.event_hash (omega arith) h.1 k.1 c.2 d.2 e) [
        | inr collision ↦ inr collision
        | inl (same, hashes) ↦
            elim (compute_hash-binding format_time sha256_hex a b p q h.0 k.0
              (sym c.1 ∙ hashes ∙ d.1)) [
                | inl (fields, start) ↦ inl ((fields, same), start)
                | inr collision ↦ inr collision
              ]
      ]

  module _ (store : EventStore) (laws : StoreLaws store) where
    open laws use {stored, insert-stored, anchor-stored}

    -- What the logger has persisted, and what it still holds.
    abbrev pub history : Logger services store → List AuditEvent
    history l = stored l.db ++ map row_of l.batch

    pub record IsChained (l : Logger services store) : Type 0 where
      pub chained : Chained genesis (history l)
      pub tip : l.prev_hash ≡ last_hash genesis (history l)
      pub distinct : DistinctIds (history l)

    -- A flush does nothing, or persists the whole batch.
    flush-cases :
        (l : Logger services store)
        → (flush services store l ≡ l)
          ⊎ ((db' : store.Db) × (store.insert_events l.batch l.db ≡ some db')
              × ((flush services store l).db ≡ db')
              × ((flush services store l).batch ≡ [])
              × ((flush services store l).prev_hash ≡ l.prev_hash))
    unfolding flush
    flush-cases l = ground arith

    flush-history :
        (l : Logger services store)
        → DistinctIds (history l)
        → history (flush services store l) ≡ history l
    flush-history l d = elim (flush-cases l) [
      | inl same ↦ ap history same
      | inr (db', inserted, db_eq, batch_eq, hash_eq) ↦
          ap₂ (λ (db : store.Db) (b : List AuditEvent). stored db ++ map row_of b) db_eq batch_eq
          ∙ append-nil (stored db')
          ∙ insert-stored l.batch l.db db' d inserted
    ]

    flush-prev_hash : (l : Logger services store) → (flush services store l).prev_hash ≡ l.prev_hash
    flush-prev_hash l = elim (flush-cases l) [
      | inl same ↦ ap (λ (k : Logger services store). k.prev_hash) same
      | inr (db', inserted, db_eq, batch_eq, hash_eq) ↦ hash_eq
    ]

    -- A flush keeps the chain, whether the store takes the batch or fails.
    pub flush-IsChained :
        (l : Logger services store) → IsChained l → IsChained (flush services store l)
    flush-IsChained l c =
        let same = flush-history l c.distinct in
        record {
          chained = subst (Chained genesis) (sym same) c.chained;
          tip = flush-prev_hash l ∙ c.tip ∙ ap (last_hash genesis) (sym same);
          distinct = subst DistinctIds (sym same) c.distinct;
        }

    chain_event-history :
        (e : AuditEvent) (l : Logger services store)
        → history (chain_event services store e l)
          ≡ history l ++ row_of (link services l.prev_hash e) ∷ []
    unfolding chain_event
    chain_event-history e l =
        let e' = link services l.prev_hash e in
        ground (
          arith,
          anchor-stored (services.format_date e'.timestamp) e'.id e'.event_hash l.db,
          append_assoc (stored l.db) (map row_of l.batch) (row_of e' ∷ []),
          map-append row_of l.batch (e' ∷ []),
        )

    chain_event-prev_hash :
        (e : AuditEvent) (l : Logger services store)
        → (chain_event services store e l).prev_hash ≡ (link services l.prev_hash e).event_hash
    unfolding chain_event
    chain_event-prev_hash e l = ground arith

    chain_event-IsChained :
        (e : AuditEvent) (l : Logger services store)
        → IsNewId e.id (history l)
        → IsChained l
        → IsChained (chain_event services store e l)
    chain_event-IsChained e l n c =
        let e' = row_of (link services l.prev_hash e) in
        let grown = chain_event-history e l in
        let rehash = ap (λ (h : Text). compute_hash format_time sha256_hex e' h) c.tip in
        record {
          chained = subst (Chained genesis) (sym grown) (
              Chained-append genesis (history l) e' c.chained (link-prev l.prev_hash e ∙ c.tip)
                (link-hash l.prev_hash e ∙ rehash));
          tip =
              chain_event-prev_hash e l
              ∙ sym (last_hash-append genesis (history l) e')
              ∙ ap (last_hash genesis) (sym grown);
          distinct = subst DistinctIds (sym grown) (
              DistinctIds-append (history l) e' c.distinct
                (ap (λ (i : Text). member i (event_ids (history l))) (link-id l.prev_hash e) ∙ n));
        }

    process_event-cases :
        (e : AuditEvent) (l : Logger services store) (P : Logger services store → Type 0)
        → let l' = chain_event services store (apply_commandments services e) l in
          P l' → P (flush services store l') → P (process_event services store e l)
    unfolding process_event
    process_event-cases e l P kept flushed = if-intro P _ _ _ (λ _. flushed) (λ _. kept)

    -- Processing an event adds it, evaluated, redacted and linked, at the end of the history.
    process_event-history :
        (e : AuditEvent) (l : Logger services store)
        → IsNewId (apply_commandments services e).id (history l)
        → IsChained l
        → (IsChained (process_event services store e l))
          × (history (process_event services store e l)
              ≡ history l
                ++ row_of (link services l.prev_hash (apply_commandments services e)) ∷ [])
    process_event-history e l n c =
        let a = apply_commandments services e in
        let kept = chain_event-IsChained a l n c in
        process_event-cases e l
          (λ k. IsChained k × (history k ≡ history l ++ row_of (link services l.prev_hash a) ∷ []))
          (kept, chain_event-history a l)
          (flush-IsChained _ kept, flush-history _ kept.distinct ∙ chain_event-history a l)

    pub process_all : List AuditEvent → Logger services store → Logger services store
    process_all [] l = l
    process_all (e ∷ es) l = process_all es (process_event services store e l)

    -- From a chained state, processing any list of events whose ids, after the commandments, are
    -- distinct and new keeps the state chained: whatever the batch size and whichever flushes fail, the events
    -- persisted and batched form one hash chain from genesis whose last hash the logger holds.
    pub process_all-IsChained :
        (es : List AuditEvent) (l : Logger services store)
        → DistinctIds (history l ++ map (apply_commandments services) es)
        → IsChained l
        → IsChained (process_all es l)
    unfolding process_all
    process_all-IsChained [] l d c = c
    process_all-IsChained (e ∷ es) l d c =
        let a = apply_commandments services e in
        let rest = map (apply_commandments services) es in
        let ids = subst Distinct (event_ids-append (history l) (a ∷ rest)) d in
        let new = Distinct-middle (event_ids (history l)) a.id (event_ids rest) ids in
        let (next, grown) = process_event-history e l new c in
        process_all-IsChained es (process_event services store e l)
          (subst Distinct (sym (regroup grown)) ids) next
      where
        a : AuditEvent
        a = apply_commandments services e

        rest : List AuditEvent
        rest = map (apply_commandments services) es

        regroup :
            history (process_event services store e l)
              ≡ history l ++ row_of (link services l.prev_hash a) ∷ []
            → event_ids (history (process_event services store e l) ++ rest)
              ≡ event_ids (history l) ++ a.id ∷ event_ids rest
        regroup grown =
            ap (λ (h : List AuditEvent). event_ids (h ++ rest)) grown
            ∙ ap event_ids
                (append_assoc (history l) (row_of (link services l.prev_hash a) ∷ []) rest)
            ∙ event_ids-append (history l) (row_of (link services l.prev_hash a) ∷ rest)
            ∙ ap (λ (i : Text). event_ids (history l) ++ i ∷ event_ids rest) (link-id l.prev_hash a)
