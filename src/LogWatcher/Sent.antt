-- ===== src/LogWatcher/Sent.antt =====
-- The events that a tail sends, against the events of the lines one after the other.
use crabwise.Common.{
  ℕ, ◌+◌, ◌≤◌, ◌≡◌, refl, sym, ap, ap₂, ◌∙◌, Option, none, some, List, [], ◌∷◌, ◌++◌, map, Text,
  length, length-append, drop, ltb, ℤ, pos, arith, if-intro, append_assoc, append-nil,
}
use crabwise.Audit.Event.{AuditEvent}
use crabwise.LogWatcher.{
  Parser, parsed_events, scan, Tailed, held, Progress, tagged, hold_events, read_lines, finish,
  tail_from,
}
use crabwise.LogWatcher.Lines.{unlines}

last_offset : ℤ → List AuditEvent → ℤ
last_offset old [] = old
last_offset old (e ∷ es) = last_offset e.source_offset es

-- The last event carries the offset at the end of the scan.
unfoldable pub ending : ℕ → List AuditEvent → List AuditEvent
ending offset [] = []
ending offset (e ∷ []) = record e { source_offset = pos offset } ∷ []
ending offset (e ∷ next ∷ es) = e ∷ ending offset (next ∷ es)

ending-snoc :
    (offset : ℕ) (es : List AuditEvent) (e : AuditEvent)
    → ending offset (es ++ (e ∷ [])) ≡ es ++ (record e { source_offset = pos offset } ∷ [])
unfolding ending
ending-snoc offset [] e = refl
ending-snoc offset (x ∷ []) e = refl
ending-snoc offset (x ∷ y ∷ es) e =
    ap (λ (t : List AuditEvent). x ∷ t) (ending-snoc offset (y ∷ es) e)

-- The offset that the next tail starts at: the one that was stored, or else that of the last event
-- sent, which the store takes over with the event.
unfoldable pub next_offset : ℤ → Tailed → ℤ
unfolding last_offset
next_offset old t = elim t.stored [ some o ↦ o | none ↦ last_offset old t.offered ]

hold_events-all :
    (path : Text) (offset : ℕ) (events : List AuditEvent) (last : Option AuditEvent)
    → (hold_events path offset events last).0 ++ held (hold_events path offset events last).1
      ≡ held last ++ map (tagged path offset) events
unfolding hold_events
hold_events-all path offset [] last = sym (append-nil (held last))
hold_events-all path offset (e ∷ events) last =
    append_assoc (held last) _ _
    ∙ ap (λ (t : List AuditEvent). held last ++ t)
        (hold_events-all path offset events (some (tagged path offset e)))

-- Nothing is held in the end only if nothing was sent.
hold_events-none :
    (path : Text) (offset : ℕ) (events : List AuditEvent) (last : Option AuditEvent)
    → (hold_events path offset events last).1 ≡ none
    → (last ≡ none) × ((hold_events path offset events last).0 ≡ [])
unfolding hold_events
hold_events-none path offset [] last h = (h, refl)
hold_events-none path offset (e ∷ events) last h =
    let (before, sent) = hold_events-none path offset events (some (tagged path offset e)) h in cc

finish-offered :
    (offset : ℕ) (p : Progress)
    → (p.last ≡ none → p.sent ≡ [])
    → (finish offset p).offered ≡ ending p.new_offset (p.sent ++ held p.last)
unfolding finish ending
finish-offered offset p nothing = go p.last nothing
  where
    go :
        (o : Option AuditEvent)
        → (o ≡ none → p.sent ≡ [])
        → (finish offset (record p { last = o })).offered ≡ ending p.new_offset (p.sent ++ held o)
    go none empty =
        ap (λ (t : List AuditEvent). t) (empty refl)
        ∙ sym (ap (λ (t : List AuditEvent). ending p.new_offset (t ++ [])) (empty refl))
    go (some e) empty = sym (ending-snoc p.new_offset p.sent e)

last_offset-snoc :
    (old : ℤ) (es : List AuditEvent) (e : AuditEvent)
    → last_offset old (es ++ (e ∷ [])) ≡ e.source_offset
unfolding last_offset
last_offset-snoc old [] e = refl
last_offset-snoc old (x ∷ es) e = last_offset-snoc x.source_offset es e

finish-next_offset :
    (offset : ℕ) (p : Progress)
    → offset ≤ p.new_offset
    → (p.last ≡ none → p.sent ≡ [])
    → next_offset (pos offset) (finish offset p) ≡ pos p.new_offset
unfolding finish next_offset
finish-next_offset offset p grows nothing = go p.last nothing
  where
    go :
        (o : Option AuditEvent)
        → (o ≡ none → p.sent ≡ [])
        → next_offset (pos offset) (finish offset (record p { last = o })) ≡ pos p.new_offset
    go none empty =
        if-intro
          (λ (o : Option ℤ).
            next_offset (pos offset) (record { offered = p.sent; stored = o }) ≡ pos p.new_offset)
          (ltb offset p.new_offset) _ _ (λ more. refl)
          (λ same.
            ap (last_offset (pos offset)) (empty refl) ∙ ap pos (ground (arith, same, grows)))
    go (some e) empty =
        last_offset-snoc (pos offset) p.sent (record e { source_offset = pos p.new_offset })

module _ {S : Type 0} (parse : Parser S) (path : Text) where
  -- The state after a line and its events, with the offset after it; the same for lines.
  unfoldable pub state_of : S → Text → ℕ → S
  state_of s l offset = (parsed_events parse path s l offset).0

  unfoldable pub events_of : S → Text → ℕ → List AuditEvent
  events_of s l offset =
      map (tagged path (offset + length l + 1)) (parsed_events parse path s l offset).1

  unfoldable pub state_at : S → List Text → ℕ → S
  state_at s [] offset = s
  state_at s (l ∷ ls) offset = state_at (state_of s l offset) ls (offset + length l + 1)

  unfoldable pub events_at : S → List Text → ℕ → List AuditEvent
  events_at s [] offset = []
  events_at s (l ∷ ls) offset =
      events_of s l offset ++ events_at (state_of s l offset) ls (offset + length l + 1)

  abbrev Reads : S → List Text → ℕ → Option AuditEvent → S × Progress → Type 0
  Reads s ls offset last (final, p) =
      (p.sent ++ held p.last ≡ held last ++ events_at s ls offset)
      × (p.new_offset ≡ offset + length (unlines ls))
      × (final ≡ state_at s ls offset)

  pub read_lines-Reads :
      (s : S) (ls : List Text) (offset : ℕ) (last : Option AuditEvent)
      → Reads s ls offset last (read_lines parse path s ls offset last)
  unfolding read_lines events_at events_of state_at state_of unlines
  read_lines-Reads s [] offset last = (sym (append-nil (held last)), omega arith, refl)
  read_lines-Reads s (l ∷ ls) offset last =
      let next = offset + length l + 1 in
      let (s', events) = parsed_events parse path s l offset in
      let (sent, kept) = hold_events path next events last in
      let (rest, at, state) = read_lines-Reads s' ls next kept in
      (
        append_assoc sent (read_lines parse path s' ls next kept).1.sent _
            ∙ ap (λ (t : List AuditEvent). sent ++ t) rest
            ∙ sym (append_assoc sent (held kept) (events_at s' ls next))
            ∙ ap (λ (t : List AuditEvent). t ++ events_at s' ls next)
                (hold_events-all path next events last)
            ∙ append_assoc (held last) (events_of s l offset) (events_at s' ls next),
        ground (arith, at, length-append l (10 ∷ unlines ls)),
        state,
      )

  read_lines-none :
      (s : S) (ls : List Text) (offset : ℕ) (last : Option AuditEvent)
      → (read_lines parse path s ls offset last).1.last ≡ none
      → (last ≡ none) × ((read_lines parse path s ls offset last).1.sent ≡ [])
  unfolding read_lines
  read_lines-none s [] offset last h = (h, refl)
  read_lines-none s (l ∷ ls) offset last h =
      let next = offset + length l + 1 in
      let (s', events) = parsed_events parse path s l offset in
      let (sent, kept) = hold_events path next events last in
      let (none_kept, no_rest) = read_lines-none s' ls next kept h in
      let (before, no_sent) = hold_events-none path next events last none_kept in
      (before, ap₂ ◌++◌ no_sent no_rest)

  -- All lines in one go: the events that are sent, the offset, and the state.
  pub tail_from-lines :
      (s : S) (contents : Text) (offset : ℕ)
      → let lines = scan (drop offset contents) in
        let (final, t) = tail_from parse path s contents (some offset) in
        (t.offered ≡ ending (offset + length (unlines lines)) (events_at s lines offset))
        × (next_offset (pos offset) t ≡ pos (offset + length (unlines lines)))
        × (final ≡ state_at s lines offset)
  unfolding tail_from
  tail_from-lines s contents offset =
      let lines = scan (drop offset contents) in
      let p = (read_lines parse path s lines offset none).1 in
      let (all_events, at, state) = read_lines-Reads s lines offset none in
      let empty : p.last ≡ none → p.sent ≡ [] = λ h. (read_lines-none s lines offset none h).1 in
      (
        finish-offered offset p empty ∙ ap₂ ending at all_events,
        finish-next_offset offset p (ground (arith, at)) empty ∙ ap pos at,
        state,
      )
