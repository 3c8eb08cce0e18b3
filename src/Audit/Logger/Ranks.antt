-- ===== src/Audit/Logger/Ranks.antt =====
-- The order of the integers that `gt_int` decides: of outcome ranks, priorities and indices.
use crabwise.Common.{◌<◌, ◌≡◌, ◌≢◌, ap, Bool-cases, inl, inr, true, false, ℤ, pos, negsuc, arith}
use crabwise.Audit.Logger.{gt_int}

abbrev pub Below : ℤ → ℤ → Type 0
Below (pos m) (pos n) = m < n
Below (pos m) (negsuc n) = ⊥
Below (negsuc m) (pos n) = Unit
Below (negsuc m) (negsuc n) = n < m

pub gt_int-Below : (m n : ℤ) → gt_int m n ≡ true → Below n m
unfolding gt_int
gt_int-Below (pos m) (pos n) h = ground arith
gt_int-Below (pos m) (negsuc n) h = tt
gt_int-Below (negsuc m) (pos n) h = cc
gt_int-Below (negsuc m) (negsuc n) h = ground arith

pub gt_int-equal : (m n : ℤ) → gt_int m n ≡ false → gt_int n m ≡ false → m ≡ n
unfolding gt_int
gt_int-equal (pos m) (pos n) h k = ap pos (ground arith)
gt_int-equal (pos m) (negsuc n) h k = cc
gt_int-equal (negsuc m) (pos n) h k = cc
gt_int-equal (negsuc m) (negsuc n) h k = ap negsuc (ground arith)

pub gt_int-apart : (m n : ℤ) → gt_int m n ≡ false → m ≢ n → Below m n
gt_int-apart m n h apart = elim (Bool-cases (gt_int n m)) [
  | inl above ↦ gt_int-Below n m above
  | inr level ↦ absurd (apart (gt_int-equal m n h level))
]
