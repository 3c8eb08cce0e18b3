-- ===== src/Store/Laws.antt =====
-- What the event store does with a batch, and the store as the logger expects it.
use crabwise.Common.{
  ℕ, ◌≡◌, ◌⊎◌, Distinct, Distinct-append, Distinct-middle, sym, ap, ◌∙◌, true, some, List, [], ◌∷◌,
  ◌++◌, map, Text, arith, append_assoc, append-nil, member, inl, inr, if-intro, All, subst,
}
use mathlib.Core.List.{map-append}
use crabwise.Audit.Event.{AuditEvent, row_of}
use crabwise.Audit.Logger.Chain.{DistinctIds, event_ids, StoreLaws}
use crabwise.Store.{
  Database, Pending, Sql, insert_row, track_offset, insert_loop, commit, after_inserts,
  insert_events, insert_chain_anchor, sqlite_store,
}

module _ (sql : Sql) where
  -- Every success of the transaction is the loop's.
  pub insert_events-inv :
      (es : List AuditEvent) (db db' : Database)
      → insert_events sql es db ≡ some db'
      → ((es ≡ []) × (db' ≡ db))
        ⊎ ((p : Pending) × (insert_loop sql es (record { rows = db.events; offsets = [] }) ≡ some p)
            × (db'.events ≡ p.rows))
  unfolding insert_events after_inserts commit
  insert_events-inv [] db db' h = ground arith
  insert_events-inv (e ∷ es) db db' h = ground arith

  -- With new, distinct ids the loop appends the rows in order.
  insert_loop-appends :
      (es : List AuditEvent) (p p' : Pending)
      → DistinctIds (p.rows ++ map row_of es)
      → insert_loop sql es p ≡ some p'
      → p'.rows ≡ p.rows ++ map row_of es
  unfolding insert_loop insert_row
  insert_loop-appends [] p p' d h = ground (arith, append-nil p.rows)
  insert_loop-appends (e ∷ es) p p' d h =
      let new =
        Distinct-middle (event_ids p.rows) e.id (event_ids (map row_of es))
          (subst Distinct (map-append (λ x. x.id) p.rows (row_of e ∷ map row_of es)) d) in
      let q : Pending = record {
        rows = p.rows ++ row_of e ∷ [];
        offsets = track_offset e p.offsets;
      } in
      ground (
        arith,
        new,
        insert_loop-appends es q p'
            (subst DistinctIds (sym (append_assoc p.rows (row_of e ∷ []) (map row_of es))) d),
        append_assoc p.rows (row_of e ∷ []) (map row_of es),
      )

  -- Ids stay distinct whatever is inserted.
  insert_row-DistinctIds :
      (e : AuditEvent) (rows : List AuditEvent) → DistinctIds rows → DistinctIds (insert_row e rows)
  unfolding insert_row
  insert_row-DistinctIds e rows d =
      if-intro DistinctIds (member e.id (event_ids rows)) _ _ (λ _. d)
        (λ n.
          subst Distinct (sym (map-append (λ x. x.id) rows (row_of e ∷ [])))
            (Distinct-append (event_ids rows) e.id d n))

  -- The ids of the batch are all in the table.
  abbrev pub AllKnown : List AuditEvent → List AuditEvent → Type 0
  AllKnown rows es = All (λ e. member e.id (event_ids rows) ≡ true) es

  insert_loop-known :
      (es : List AuditEvent) (p p' : Pending)
      → AllKnown p.rows es
      → insert_loop sql es p ≡ some p'
      → p'.rows ≡ p.rows
  unfolding insert_loop insert_row
  insert_loop-known [] p p' k h = ground arith
  insert_loop-known (e ∷ es) p p' k h = ground (
    arith,
    insert_loop-known es (record { rows = p.rows; offsets = track_offset e p.offsets }) p' k.1,
  )

  -- Inserting a batch whose ids are all known, as after a restart, changes no event.
  pub insert_events-known :
      (es : List AuditEvent) (db db' : Database)
      → AllKnown db.events es
      → insert_events sql es db ≡ some db'
      → db'.events ≡ db.events
  insert_events-known es db db' k h = elim (insert_events-inv es db db' h) [
    | inl (_, same) ↦ ap (λ (d : Database). d.events) same
    | inr (p, looped, rows) ↦ rows ∙ insert_loop-known es _ p k looped
  ]

  -- A successful transaction over new, distinct ids appends exactly the rows of the batch, in order.
  pub insert_events-appends :
      (es : List AuditEvent) (db db' : Database)
      → DistinctIds (db.events ++ map row_of es)
      → insert_events sql es db ≡ some db'
      → db'.events ≡ db.events ++ map row_of es
  insert_events-appends es db db' d h = elim (insert_events-inv es db db' h) [
    | inl (empty, same) ↦
        ap (λ (x : Database). x.events) same
        ∙ sym (append-nil db.events)
        ∙ ap (λ (l : List AuditEvent). db.events ++ map row_of l) (sym empty)
    | inr (p, looped, rows) ↦ rows ∙ insert_loop-appends es _ p d looped
  ]

  pub anchor-events :
      (epoch id hash : Text) (db : Database)
      → (insert_chain_anchor epoch id hash db).events ≡ db.events
  unfolding insert_chain_anchor
  anchor-events epoch id hash db = ground arith

  -- The SQLite store is a store as the logger expects it, for batches of new, distinct ids.
  abbrev pub sqlite_store-StoreLaws :
      (format_time : ℕ → Text) → StoreLaws (sqlite_store format_time sql)
  sqlite_store-StoreLaws format_time = record {
    stored = λ db. db.events;
    insert-stored = insert_events-appends;
    anchor-stored = anchor-events;
  }
