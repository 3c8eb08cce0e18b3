-- ===== src/Proxy/Stream/Gathered.antt =====
-- The accumulators of streaming.go against the deltas that they were gathered from.
use crabwise.Common.{
  ◌≡◌, ◌↔◌, refl, sym, ap, ◌∙◌, Bool, true, false, ◌||◌, Option, none, some, List, [], ◌∷◌, ◌++◌,
  foldl, append_assoc, append-nil, Text, arith, ℤ, pos, negsuc, nat_eq_iff, non_empty,
  if◌then◌else◌,
}
use crabwise.Audit.Logger.{gt_int}
use crabwise.Audit.Logger.Ranks.{Below, gt_int-Below, gt_int-apart}
use crabwise.Proxy.Provider.{ToolCallDelta}
use crabwise.Proxy.Stream.{Accumulator, int_eq, add_delta, accumulate, insert_index, sort_indices}

pub int_eq_iff : (a b : ℤ) → (int_eq a b ≡ true) ↔ (a ≡ b)
unfolding int_eq
int_eq_iff (pos m) (pos n) = ground (arith, nat_eq_iff m n)
int_eq_iff (negsuc m) (negsuc n) = ground (arith, nat_eq_iff m n)
int_eq_iff (pos m) (negsuc n) = ground arith
int_eq_iff (negsuc m) (pos n) = ground arith

-- The accumulator of an index.
abbrev pub lookup_at : ℤ → List Accumulator → Option Accumulator
lookup_at i [] = none
lookup_at i (acc ∷ accs) = if int_eq acc.index i then some acc else lookup_at i accs

-- Each index is below the next one.
abbrev pub AscendsIndices : List Accumulator → Type 0
AscendsIndices [] = Unit
AscendsIndices (a ∷ []) = Unit
AscendsIndices (a ∷ b ∷ accs) = Below a.index b.index × AscendsIndices (b ∷ accs)

-- The fragments for an index, in the order in which they arrived.
abbrev pub fragments : ℤ → List ToolCallDelta → Text
fragments i [] = []
fragments i (d ∷ ds) = (if int_eq d.index i then d.args_delta else []) ++ fragments i ds

-- The last text that is not empty of the deltas for an index, or the one given.
abbrev pub last_text : (ToolCallDelta → Text) → Text → ℤ → List ToolCallDelta → Text
last_text part old i [] = old
last_text part old i (d ∷ ds) =
    last_text part (if int_eq d.index i then if non_empty (part d) then part d else old else old) i
      ds

abbrev pub occurs : ℤ → List ToolCallDelta → Bool
occurs i [] = false
occurs i (d ∷ ds) = int_eq d.index i || occurs i ds

-- What all deltas say of an index.
abbrev pub gathered : ℤ → List ToolCallDelta → Option Accumulator
gathered i ds =
    if occurs i ds
    then some (record {
      index = i;
      id = last_text (λ d. d.id) [] i ds;
      name = last_text (λ d. d.name) [] i ds;
      args = fragments i ds;
    })
    else none

-- What an accumulator becomes with more deltas.
extended : ℤ → Option Accumulator → List ToolCallDelta → Option Accumulator
extended i none ds = gathered i ds
extended i (some acc) ds = some (record {
  index = acc.index;
  id = last_text (λ d. d.id) acc.id i ds;
  name = last_text (λ d. d.name) acc.name i ds;
  args = acc.args ++ fragments i ds;
})

int_eq_sym : (a b : ℤ) → int_eq a b ≡ false → int_eq b a ≡ false
int_eq_sym a b h = ground (arith, int_eq_iff a b, int_eq_iff b a)

accumulate-extended :
    (i : ℤ) (accs : List Accumulator) (d : ToolCallDelta) (ds : List ToolCallDelta)
    → extended i (lookup_at i (accumulate accs d)) ds ≡ extended i (lookup_at i accs) (d ∷ ds)
unfolding accumulate add_delta extended
accumulate-extended i [] d ds = ground (arith, int_eq_iff d.index i)
accumulate-extended i (acc ∷ accs) d ds = ground (
  arith,
  int_eq_iff acc.index d.index,
  int_eq_iff acc.index i,
  int_eq_iff d.index i,
  append_assoc acc.args d.args_delta (fragments i ds),
  accumulate-extended i accs d ds,
)

extended-nil : (i : ℤ) (o : Option Accumulator) → extended i o [] ≡ o
unfolding extended
extended-nil i none = refl
extended-nil i (some acc) =
    ap (λ (t : Text). some (record { index = acc.index; id = acc.id; name = acc.name; args = t }))
      (append-nil acc.args)

accumulate_all-extended :
    (i : ℤ) (accs : List Accumulator) (ds : List ToolCallDelta)
    → lookup_at i (foldl accumulate accs ds) ≡ extended i (lookup_at i accs) ds
accumulate_all-extended i accs [] = sym (extended-nil i (lookup_at i accs))
accumulate_all-extended i accs (d ∷ ds) =
    accumulate_all-extended i (accumulate accs d) ds ∙ accumulate-extended i accs d ds

-- No accumulator has the index.
Fresh : ℤ → List Accumulator → Type 0
Fresh i [] = Unit
Fresh i (acc ∷ accs) = (int_eq acc.index i ≡ false) × Fresh i accs

-- No two accumulators have the same index.
Apart : List Accumulator → Type 0
Apart [] = Unit
Apart (acc ∷ accs) = Fresh acc.index accs × Apart accs

accumulate-Fresh :
    (i : ℤ) (accs : List Accumulator) (d : ToolCallDelta)
    → int_eq d.index i ≡ false
    → Fresh i accs
    → Fresh i (accumulate accs d)
unfolding accumulate add_delta Fresh
accumulate-Fresh i [] d other h = (other, tt)
accumulate-Fresh i (acc ∷ accs) d other h = ground (arith, accumulate-Fresh i accs d other h.1)

accumulate-Apart :
    (accs : List Accumulator) (d : ToolCallDelta) → Apart accs → Apart (accumulate accs d)
unfolding accumulate add_delta Apart Fresh
accumulate-Apart [] d h = (tt, tt)
accumulate-Apart (acc ∷ accs) d h = ground (
  arith,
  int_eq_sym acc.index d.index,
  accumulate-Fresh acc.index accs d,
  accumulate-Apart accs d h.1,
)

accumulate_all-Apart :
    (accs : List Accumulator) (ds : List ToolCallDelta)
    → Apart accs
    → Apart (foldl accumulate accs ds)
accumulate_all-Apart accs [] h = h
accumulate_all-Apart accs (d ∷ ds) h =
    accumulate_all-Apart (accumulate accs d) ds (accumulate-Apart accs d h)

insert_index-Fresh :
    (i : ℤ) (acc : Accumulator) (accs : List Accumulator)
    → int_eq acc.index i ≡ false
    → Fresh i accs
    → Fresh i (insert_index acc accs)
unfolding insert_index Fresh
insert_index-Fresh i acc [] other h = (other, tt)
insert_index-Fresh i acc (x ∷ accs) other h =
    ground (arith, insert_index-Fresh i acc accs other h.1)

sort_indices-Fresh : (i : ℤ) (accs : List Accumulator) → Fresh i accs → Fresh i (sort_indices accs)
unfolding sort_indices Fresh
sort_indices-Fresh i [] h = tt
sort_indices-Fresh i (acc ∷ accs) h =
    insert_index-Fresh i acc (sort_indices accs) h.0 (sort_indices-Fresh i accs h.1)

insert_index-lookup :
    (i : ℤ) (acc : Accumulator) (accs : List Accumulator)
    → Fresh acc.index accs
    → lookup_at i (insert_index acc accs)
      ≡ (if int_eq acc.index i then some acc else lookup_at i accs)
unfolding insert_index Fresh
insert_index-lookup i acc [] h = refl
insert_index-lookup i acc (x ∷ accs) h = ground (
  arith,
  int_eq_iff acc.index i,
  int_eq_iff x.index i,
  int_eq_iff x.index acc.index,
  insert_index-lookup i acc accs h.1,
)

sort_indices-lookup :
    (i : ℤ) (accs : List Accumulator)
    → Apart accs
    → lookup_at i (sort_indices accs) ≡ lookup_at i accs
unfolding sort_indices Apart
sort_indices-lookup i [] h = refl
sort_indices-lookup i (acc ∷ accs) h =
    insert_index-lookup i acc (sort_indices accs) (sort_indices-Fresh acc.index accs h.0)
    ∙ ap (λ (o : Option Accumulator). if int_eq acc.index i then some acc else o)
        (sort_indices-lookup i accs h.1)

-- An accumulator with a new index that is not above another one's is below it.
gt_int-other : (a b : ℤ) → gt_int a b ≡ false → int_eq b a ≡ false → Below a b
gt_int-other a b level other = gt_int-apart a b level (λ same. ground (arith, int_eq_iff b a))

insert_index-Ascends :
    (acc : Accumulator) (accs : List Accumulator)
    → Fresh acc.index accs
    → AscendsIndices accs
    → AscendsIndices (insert_index acc accs)
unfolding insert_index Fresh
insert_index-Ascends acc [] new h = tt
insert_index-Ascends acc (x ∷ []) new h =
    ground (arith, gt_int-Below acc.index x.index, gt_int-other acc.index x.index)
insert_index-Ascends acc (x ∷ y ∷ accs) new h = ground (
  arith,
  gt_int-Below acc.index x.index,
  gt_int-other acc.index x.index,
  insert_index-Ascends acc (y ∷ accs) new.1 h.1,
)

sort_indices-Ascends : (accs : List Accumulator) → Apart accs → AscendsIndices (sort_indices accs)
unfolding sort_indices Apart
sort_indices-Ascends [] h = tt
sort_indices-Ascends (acc ∷ accs) h =
    insert_index-Ascends acc (sort_indices accs) (sort_indices-Fresh acc.index accs h.0)
      (sort_indices-Ascends accs h.1)

none-Apart : Apart []
unfolding Apart
none-Apart = tt

pub gather-Ascends :
    (ds : List ToolCallDelta) → AscendsIndices (sort_indices (foldl accumulate [] ds))
gather-Ascends ds = sort_indices-Ascends _ (accumulate_all-Apart [] ds none-Apart)

pub gather-lookup :
    (i : ℤ) (ds : List ToolCallDelta)
    → lookup_at i (sort_indices (foldl accumulate [] ds)) ≡ gathered i ds
unfolding extended
gather-lookup i ds =
    sort_indices-lookup i _ (accumulate_all-Apart [] ds none-Apart)
    ∙ accumulate_all-extended i [] ds
