-- ===== src/LogWatcher/Laws.antt =====
-- A tail takes up where the last one left off.
use crabwise.Common.{
  ℕ, ◌+◌, ◌≡◌, refl, sym, ap, ap₂, subst, ◌∙◌, some, List, [], ◌∷◌, ◌++◌, Text, length,
  length-append, All, ℤ, pos, arith, append_assoc, append-nil,
}
use crabwise.Audit.Event.{AuditEvent}
use crabwise.LogWatcher.{
  Parser, raw_lines, fitting, scan, start_offset, Tailed, tail_from, tail_file,
}
use crabwise.LogWatcher.Lines.{unlines, IsLine, scan-unlines, drop-length}
use crabwise.LogWatcher.Sent.{
  state_of, events_of, state_at, events_at, ending, next_offset, tail_from-lines,
}

-- Events without the offset, which tells where the next tail starts.
pub without_offset : List AuditEvent → List AuditEvent
without_offset [] = []
without_offset (e ∷ es) = record e { source_offset = pos 0 } ∷ without_offset es

without_offset-append :
    (xs ys : List AuditEvent) → without_offset (xs ++ ys) ≡ without_offset xs ++ without_offset ys
unfolding without_offset
without_offset-append [] ys = refl
without_offset-append (x ∷ xs) ys =
    ap (λ (t : List AuditEvent). record x { source_offset = pos 0 } ∷ t)
      (without_offset-append xs ys)

without_offset-ending :
    (offset : ℕ) (es : List AuditEvent) → without_offset (ending offset es) ≡ without_offset es
unfolding without_offset ending
without_offset-ending offset [] = refl
without_offset-ending offset (e ∷ []) = refl
without_offset-ending offset (e ∷ next ∷ es) =
    ap (λ (t : List AuditEvent). record e { source_offset = pos 0 } ∷ t)
      (without_offset-ending offset (next ∷ es))

scan_complete : (ls : List Text) → All IsLine ls → scan (unlines ls) ≡ ls
unfolding scan raw_lines fitting
scan_complete ls lines =
    ap scan (sym (append-nil (unlines ls))) ∙ scan-unlines ls [] lines ∙ append-nil ls

module _ {S : Type 0} (parse : Parser S) (path : Text) where
  events_at-append :
      (s : S) (xs ys : List Text) (offset : ℕ)
      → (events_at parse path s (xs ++ ys) offset
          ≡ events_at parse path s xs offset
            ++ events_at parse path
                (state_at parse path s xs offset)
                ys
                (offset + length (unlines xs)))
        × (state_at parse path s (xs ++ ys) offset
            ≡ state_at parse path
                (state_at parse path s xs offset)
                ys
                (offset + length (unlines xs)))
  unfolding events_at state_at unlines
  events_at-append s [] ys offset =
      (ap (events_at parse path s ys) (omega arith), ap (state_at parse path s ys) (omega arith))
  events_at-append s (l ∷ xs) ys offset =
      let next = offset + length l + 1 in
      let s' = state_of parse path s l offset in
      let (events, state) = events_at-append s' xs ys next in
      let both : next + length (unlines xs) ≡ offset + length (l ++ (10 ∷ unlines xs)) =
        ground (arith, length-append l (10 ∷ unlines xs)) in
      (
        ap (λ (t : List AuditEvent). events_of parse path s l offset ++ t) events
            ∙ sym (append_assoc (events_of parse path s l offset) _ _)
            ∙ ap
                (λ (o : ℕ).
                  (events_of parse path s l offset ++ events_at parse path s' xs next)
                  ++ events_at parse path (state_at parse path s' xs next) ys o)
                both,
        state ∙ ap (state_at parse path (state_at parse path s' xs next) ys) both,
      )

  -- A tail that reads lines from an offset on.
  abbrev Tails : S → ℕ → List Text → S × Tailed → Type 0
  Tails s offset lines (final, t) =
      (without_offset t.offered ≡ without_offset (events_at parse path s lines offset))
      × (next_offset (pos offset) t ≡ pos (offset + length (unlines lines)))
      × (final ≡ state_at parse path s lines offset)

  -- The same with the events that it sends, the last one with the offset of the end.
  abbrev pub Sends : S → ℕ → List Text → S × Tailed → Type 0
  Sends s offset lines (final, t) =
      (t.offered ≡ ending (offset + length (unlines lines)) (events_at parse path s lines offset))
      × (next_offset (pos offset) t ≡ pos (offset + length (unlines lines)))
      × (final ≡ state_at parse path s lines offset)

  pub tail_file-Sends :
      (s : S) (part rest : Text)
      → Sends s
          (length part)
          (scan rest)
          (tail_file parse path s (some (pos (length part))) (some (part ++ rest)))
  unfolding tail_file start_offset
  tail_file-Sends s part rest =
      subst
        (λ (o : ℕ).
          Sends s (length part) (scan rest) (tail_from parse path s (part ++ rest) (some o)))
        (ground (arith, length-append part rest))
        (subst
          (λ (r : Text).
            Sends s (length part) (scan r)
              (tail_from parse path s (part ++ rest) (some (length part))))
          (drop-length part rest) (tail_from-lines parse path s (part ++ rest) (length part)))

  tail_file-Tails :
      (s : S) (part rest : Text)
      → Tails s
          (length part)
          (scan rest)
          (tail_file parse path s (some (pos (length part))) (some (part ++ rest)))
  tail_file-Tails s part rest =
      let (sent, offset, state) = tail_file-Sends s part rest in
      (ap without_offset sent ∙ without_offset-ending _ _, offset, state)

  -- One tail up to the end of the lines and one from there, against a single one.
  abbrev pub Resumes : S → Text → Text → List Text → Type 0
  Resumes s before rest ls =
      let longer = before ++ (unlines ls ++ rest) in
      let start = pos (length before) in
      let (between, first) = tail_file parse path s (some start) (some (before ++ unlines ls)) in
      let offset = next_offset start first in
      let (final, second) = tail_file parse path between (some offset) (some longer) in
      let (final', whole) = tail_file parse path s (some start) (some longer) in
      (offset ≡ pos (length (before ++ unlines ls)))
      × (without_offset whole.offered
          ≡ without_offset first.offered ++ without_offset second.offered)
      × (final' ≡ final)

  -- Lines that the scanner keeps, in one tail and in two: a tail of a file that ends with them, then
  -- one of the file when more has been written, from where the first left off, send the
  -- events that one tail of the longer file sends, in the same order, except for the offsets, and leave
  -- the parser in the same state.
  pub tail_file-Resumes :
      (s : S) (before rest : Text) (ls : List Text) → All IsLine ls → Resumes s before rest ls
  tail_file-Resumes s before rest ls lines =
      let (sent_first, moved_first, state_first) = first_Tails in
      let (sent_second, moved_second, state_second) = second_Tails in
      let (sent_whole, moved_whole, state_whole) = whole_Tails in
      let (events, state) = events_at-append s ls (scan rest) (length before) in
      (
        moved,
        sent_whole
            ∙ ap without_offset events
            ∙ without_offset-append (events_at parse path s ls (length before)) _
            ∙ ap₂ ◌++◌ (sym sent_first) (
                ap₂ (λ (u : S) (o : ℕ). without_offset (events_at parse path u (scan rest) o))
                  (sym state_first) (sym both)
                ∙ sym sent_second),
        state_whole
            ∙ state
            ∙ ap₂ (λ (u : S) (o : ℕ). state_at parse path u (scan rest) o) (sym state_first)
                (sym both)
            ∙ sym state_second,
      )
    where
      start : ℤ
      start = pos (length before)

      first : S × Tailed
      first = tail_file parse path s (some start) (some (before ++ unlines ls))

      both : length (before ++ unlines ls) ≡ length before + length (unlines ls)
      both = length-append before (unlines ls)

      first_Tails : Tails s (length before) ls first
      first_Tails =
          subst (λ (t : List Text). Tails s (length before) t first) (scan_complete ls lines)
            (tail_file-Tails s before (unlines ls))

      whole_Tails :
          Tails s
            (length before)
            (ls ++ scan rest)
            (tail_file parse path s (some start) (some (before ++ (unlines ls ++ rest))))
      whole_Tails =
          subst
            (λ (t : List Text).
              Tails s (length before) t
                (tail_file parse path s (some start) (some (before ++ (unlines ls ++ rest)))))
            (scan-unlines ls rest lines) (tail_file-Tails s before (unlines ls ++ rest))

      moved : next_offset start first.1 ≡ pos (length (before ++ unlines ls))
      moved = first_Tails.1 ∙ ap pos (sym both)

      second_Tails : Tails first.0 (length (before ++ unlines ls)) (scan rest) (
          tail_file parse path first.0
            (some (next_offset start first.1))
            (some (before ++ (unlines ls ++ rest))))
      second_Tails =
          subst (λ (t : S × Tailed). Tails first.0 (length (before ++ unlines ls)) (scan rest) t)
            (ap₂ (λ (o : ℤ) (r : Text). tail_file parse path first.0 (some o) (some r)) (sym moved)
              (append_assoc before (unlines ls) rest))
            (tail_file-Tails first.0 (before ++ unlines ls) rest)
