-- ===== src/LogWatcher/Lines.antt =====
-- What the scanner makes of lines that are complete.
use crabwise.Common.{
  ◌≡◌, refl, ap, ◌∙◌, true, false, List, [], ◌∷◌, ◌++◌, Text, trim_suffix, length, drop, ltb,
  nat_eq, All, append_assoc,
}
use crabwise.LogWatcher.{max_line, attach, raw_lines, fitting, scan}

-- Lines with their ends.
unfoldable pub unlines : List Text → Text
unlines [] = []
unlines (l ∷ ls) = l ++ (10 ∷ unlines ls)

-- A line without an end in it that the scanner keeps as it is and that fits into its buffer.
pub record IsLine (l : Text) : Type 0 where
  pub inside : All (λ c. nat_eq c 10 ≡ false) l
  pub kept : trim_suffix l (13 ∷ []) ≡ l
  pub fits : ltb (length l) max_line ≡ true

raw_lines-line :
    (l rest : Text)
    → All (λ c. nat_eq c 10 ≡ false) l
    → raw_lines (l ++ (10 ∷ rest)) ≡ l ∷ raw_lines rest
unfolding raw_lines attach
raw_lines-line [] rest inside = refl
raw_lines-line (c ∷ l) rest (other, inside) = rw (other, raw_lines-line l rest inside) refl

raw_lines-unlines :
    (ls : List Text) (rest : Text)
    → All IsLine ls
    → raw_lines (unlines ls ++ rest) ≡ ls ++ raw_lines rest
unfolding unlines
raw_lines-unlines [] rest lines = refl
raw_lines-unlines (l ∷ ls) rest (is_line, lines) =
    ap raw_lines (append_assoc l (10 ∷ unlines ls) rest)
    ∙ raw_lines-line l (unlines ls ++ rest) is_line.inside
    ∙ ap (λ (t : List Text). l ∷ t) (raw_lines-unlines ls rest lines)

fitting-lines : (ls rest : List Text) → All IsLine ls → fitting (ls ++ rest) ≡ ls ++ fitting rest
unfolding fitting
fitting-lines [] rest lines = refl
fitting-lines (l ∷ ls) rest (is_line, lines) =
    rw (is_line.fits, is_line.kept, fitting-lines ls rest lines) refl

pub scan-unlines :
    (ls : List Text) (rest : Text) → All IsLine ls → scan (unlines ls ++ rest) ≡ ls ++ scan rest
unfolding scan
scan-unlines ls rest lines =
    ap fitting (raw_lines-unlines ls rest lines) ∙ fitting-lines ls (raw_lines rest) lines

pub drop-length {ℓ} : {A : Type ℓ} (xs ys : List A) → drop (length xs) (xs ++ ys) ≡ ys
drop-length [] ys = refl
drop-length (x ∷ xs) ys = drop-length xs ys
