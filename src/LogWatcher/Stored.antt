-- ===== src/LogWatcher/Stored.antt =====
-- The events of a tail in the store: with them the store takes over where the next tail starts.
use crabwise.Common.{
  ℕ, ◌-◌, zero, suc, ◌+◌, ◌≤◌, ◌≡◌, ◌≢◌, refl, sym, ap, ◌∙◌, subst, Bool, true, Option, none, some,
  List, [], ◌∷◌, ◌++◌, map, Text, ==_refl, non_empty, length, length-append, ℤ, pos, negsuc, Map,
  lookup, lookup_or, lookup-insert, insert, arith, if◌then◌else◌,
}
use crabwise.Audit.Event.{AuditEvent}
use crabwise.Audit.Logger.{gt_int}
use crabwise.Store.{
  Database, Pending, Sql, insert_row, track_offset, insert_loop, offset_loop, commit, after_inserts,
  insert_events, get_file_offset,
}
use crabwise.LogWatcher.{Parser, Tailed, scan, tagged, parsed_events, tail_file}
use crabwise.LogWatcher.Lines.{unlines}
use crabwise.LogWatcher.Laws.{Sends, tail_file-Sends}
use crabwise.LogWatcher.Sent.{state_of, events_of, events_at, ending, next_offset}

offset_of : ℤ → ℕ
offset_of (pos n) = n
offset_of (negsuc n) = 0

module _ (path : Text) (named : non_empty path ≡ true) where
  -- Events of the file whose offsets never fall, within bounds.
  Climbs : ℕ → ℕ → List AuditEvent → Type 0
  Climbs low high [] = Unit {0}
  Climbs low high (e ∷ es) =
      (e.source_file ≡ path)
      × (n : ℕ) × (e.source_offset ≡ pos n)
      × (low ≤ n)
      × (n ≤ high)
      × Climbs n high es

  -- The offset of the last event, `low` without one.
  end_of : ℕ → List AuditEvent → ℕ
  end_of low [] = low
  end_of low (e ∷ es) = end_of (offset_of e.source_offset) es

  -- What the transaction keeps of the offsets: nothing or the one of the file.
  kept : ℕ → Map ℤ
  kept zero = []
  kept (suc n) = (path, pos (suc n)) ∷ []

  track_offset-kept :
      (e : AuditEvent) (low n : ℕ)
      → e.source_file ≡ path
      → e.source_offset ≡ pos n
      → low ≤ n
      → track_offset e (kept low) ≡ kept n
  unfolding track_offset kept gt_int insert lookup
  track_offset-kept e zero zero file offset climbs = rw (file, offset, named) refl
  track_offset-kept e zero (suc n) file offset climbs = rw (file, offset, named) (ground arith)
  track_offset-kept e (suc m) zero file offset climbs = absurd (omega arith)
  track_offset-kept e (suc m) (suc n) file offset climbs =
      rw (file, offset, named) (ground (arith, ==_refl path))

  -- The loop of the transaction leaves the offset of the last event.
  insert_loop-offsets :
      (sql : Sql) (es : List AuditEvent) (low high : ℕ) (p p' : Pending)
      → Climbs low high es
      → p.offsets ≡ kept low
      → insert_loop sql es p ≡ some p'
      → p'.offsets ≡ kept (end_of low es)
  unfolding insert_loop Climbs end_of offset_of
  insert_loop-offsets sql [] low high p p' climbs at h = ground (arith, at)
  insert_loop-offsets sql (e ∷ es) low high p p' (file, n, offset, up, below, climbs) at h =
      let q : Pending = record { rows = insert_row e p.rows; offsets = track_offset e p.offsets } in
      let looped : insert_loop sql es q ≡ some p' = ground arith in
      insert_loop-offsets sql es n high q p' climbs
        (ap (track_offset e) at ∙ track_offset-kept e low n file offset up) looped
      ∙ ap (λ (m : ℕ). kept (end_of m es)) (sym (ap offset_of offset))

  -- A transaction that succeeds went through both loops.
  insert_events-loops :
      (sql : Sql) (e : AuditEvent) (es : List AuditEvent) (db db' : Database)
      → insert_events sql (e ∷ es) db ≡ some db'
      → (p : Pending) × (insert_loop sql (e ∷ es) (record { rows = db.events; offsets = [] })
          ≡ some p)
        × (offset_loop sql p.offsets db.file_offsets ≡ some db'.file_offsets)
  unfolding insert_events after_inserts commit
  insert_events-loops sql e es db db' h = ground arith

  offset_loop-kept :
      (sql : Sql) (m : ℕ) (table table' : Map ℤ)
      → offset_loop sql (kept (suc m)) table ≡ some table'
      → table' ≡ insert path (pos (suc m)) table
  unfolding offset_loop kept
  offset_loop-kept sql m table table' h = ground arith

  nothing-ends : (m : ℕ) → end_of 0 [] ≢ suc m
  unfolding end_of
  nothing-ends m h = omega arith

  -- What a batch that is stored makes of the offset of the file.
  insert_events-offset :
      (sql : Sql) (es : List AuditEvent) (high m : ℕ) (db db' : Database)
      → Climbs 0 high es
      → end_of 0 es ≡ suc m
      → insert_events sql es db ≡ some db'
      → get_file_offset path db' ≡ pos (suc m)
  unfolding insert_events after_inserts get_file_offset commit
  insert_events-offset sql [] high m db db' climbs ends h = absurd (nothing-ends m ends)
  insert_events-offset sql (e ∷ es) high m db db' climbs ends h =
      let (p, looped, stored) = insert_events-loops sql e es db db' h in
      let offsets : p.offsets ≡ kept (suc m) =
        insert_loop-offsets sql (e ∷ es) 0 high (record { rows = db.events; offsets = [] }) p climbs
          (unfold kept in refl) looped
        ∙ ap kept ends in
      let table : db'.file_offsets ≡ insert path (pos (suc m)) db.file_offsets =
        offset_loop-kept sql m db.file_offsets db'.file_offsets
          (ap (λ (o : Map ℤ). offset_loop sql o db.file_offsets) (sym offsets) ∙ stored) in
      let found : lookup path (insert path (pos (suc m)) db.file_offsets) ≡ some (pos (suc m)) =
        lookup-insert path path (pos (suc m)) db.file_offsets
        ∙ ap (λ (b : Bool). if b then some (pos (suc m)) else lookup path db.file_offsets)
            (==_refl path) in
      ap (λ (t : Map ℤ). lookup_or path t (pos 0)) table
      ∙ ap (λ (o : Option ℤ). elim o [ none ↦ pos 0 | some v ↦ v ]) found

  Climbs-ending :
      (low high : ℕ) (es : List AuditEvent)
      → low ≤ high
      → Climbs low high es
      → Climbs low high (ending high es)
  unfolding Climbs ending
  Climbs-ending low high [] bound climbs = tt
  Climbs-ending low high (e ∷ []) bound (file, n, offset, up, below, rest) =
      (file, high, refl, bound, omega arith, tt)
  Climbs-ending low high (e ∷ next ∷ es) bound (file, n, offset, up, below, rest) =
      (file, n, offset, up, below, Climbs-ending n high (next ∷ es) below rest)

  end_of-ending :
      (low high : ℕ) (e : AuditEvent) (es : List AuditEvent)
      → end_of low (ending high (e ∷ es)) ≡ high
  unfolding end_of ending offset_of
  end_of-ending low high e [] = refl
  end_of-ending low high e (next ∷ es) = end_of-ending (offset_of e.source_offset) high next es

  module _ {S : Type 0} (parse : Parser S) where
    Climbs-low :
        (low high : ℕ) (e : AuditEvent) (es : List AuditEvent)
        → Climbs low high (e ∷ es)
        → low ≤ high
    unfolding Climbs
    Climbs-low low high e es (file, n, offset, above, below, climbs) = omega arith

    Climbs-lower :
        (low at high : ℕ) (es : List AuditEvent) → low ≤ at → Climbs at high es → Climbs low high es
    unfolding Climbs
    Climbs-lower low at high [] up climbs = tt
    Climbs-lower low at high (e ∷ es) up (file, n, offset, above, below, climbs) =
        (file, n, offset, omega arith, below, climbs)

    Climbs-tagged :
        (low at high : ℕ) (es rest : List AuditEvent)
        → low ≤ at
        → at ≤ high
        → Climbs at high rest
        → Climbs low high (map (tagged path at) es ++ rest)
    unfolding Climbs
    Climbs-tagged low at high [] rest up below climbs = Climbs-lower low at high rest up climbs
    Climbs-tagged low at high (e ∷ es) rest up below climbs =
        (refl, at, refl, up, below, Climbs-tagged at at high es rest (omega arith) below climbs)

    events_at-Climbs :
        (s : S) (ls : List Text) (offset low : ℕ)
        → low ≤ suc offset
        → Climbs low (offset + length (unlines ls)) (events_at parse path s ls offset)
    unfolding events_at events_of state_of unlines Climbs
    events_at-Climbs s [] offset low up = tt
    events_at-Climbs s (l ∷ ls) offset low up =
        let next = offset + length l + 1 in
        let (s', events) = parsed_events parse path s l offset in
        let both : next + length (unlines ls) ≡ offset + length (l ++ (10 ∷ unlines ls)) =
          ground (arith, length-append l (10 ∷ unlines ls)) in
        subst
          (λ (h : ℕ).
            Climbs low h (events_of parse path s l offset ++ events_at parse path s' ls next))
          both
          (Climbs-tagged low next (next + length (unlines ls)) events
            (events_at parse path s' ls next) (omega arith) (omega arith)
            (events_at-Climbs s' ls next next (omega arith)))

    -- If a tail of a named file, from an offset within it, sends events and the store takes them in one
    -- batch, then the offset stored for the file is the one that the next tail must start at,
    -- whatever was stored before.
    pub insert_events-next_offset :
        (sql : Sql) (s : S) (part rest : Text) (db db' : Database)
        → let t = (tail_file parse path s (some (pos (length part))) (some (part ++ rest))).1 in
          t.offered ≢ []
          → insert_events sql t.offered db ≡ some db'
          → get_file_offset path db' ≡ next_offset (pos (length part)) t
    unfolding ending
    insert_events-next_offset sql s part rest db db' some_sent stored =
        go (events_at parse path s lines (length part)) refl
      where
        lines : List Text
        lines = scan rest

        high : ℕ
        high = length part + length (unlines lines)

        t : Tailed
        t = (tail_file parse path s (some (pos (length part))) (some (part ++ rest))).1

        sends :
            Sends parse path s
              (length part)
              lines
              (tail_file parse path s (some (pos (length part))) (some (part ++ rest)))
        sends = tail_file-Sends parse path s part rest

        go :
            (es : List AuditEvent)
            → events_at parse path s lines (length part) ≡ es
            → get_file_offset path db' ≡ next_offset (pos (length part)) t
        go [] none_read = absurd (some_sent (sends.0 ∙ ap (ending high) none_read))
        go (e ∷ es) read =
            let climbs : Climbs 1 high (e ∷ es) =
              subst (Climbs 1 high) read (events_at-Climbs s lines (length part) 1 (omega arith)) in
            let at_least : 1 ≤ high = Climbs-low 1 high e es climbs in
            let top : high ≡ suc (high - 1) = omega arith in
            insert_events-offset sql t.offered high (high - 1) db db'
              (subst (Climbs 0 high) (sym (sends.0 ∙ ap (ending high) read)) (
                Climbs-ending 0 high (e ∷ es) (omega arith)
                  (Climbs-lower 0 1 high (e ∷ es) (omega arith) climbs)))
              (ap (end_of 0) (sends.0 ∙ ap (ending high) read) ∙ end_of-ending 0 high e es ∙ top)
              stored
            ∙ sym (sends.1 ∙ ap pos top)
