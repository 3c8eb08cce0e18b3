-- ===== src/Commandments/Schema/Laws.antt =====
-- What a rule set that passes the validation guarantees.
use crabwise.Common.{
  ℕ, suc, ◌+◌, ◌≤◌, ◌≡◌, refl, true, false, not, List, [], ◌∷◌, map, Text, ◌==◌, ==_iff, ==_comm,
  non_empty, trim_space, length, member, add, member-add, Distinct, All, Map, leb, ltb, leb→le,
  arith,
}
use crabwise.Common.Result.{Result, ok, err, >>=-eq-ok, guard-eq-ok}
use crabwise.Commandments.{
  Host, Commandment, MatchCondition, RuleSet, schema_version_v1, max_rules, max_compiled_patterns,
}
use crabwise.Commandments.Schema.{
  ConditionError, valid_enforcement, condition_result, validate_match_condition, validate_fields,
  validate_rules, validate,
}

abbrev pub names : List Commandment → List Text
names = map (λ r. r.name)

module _ (host : Host) where
  -- Every field is named and its condition passes; the conditions' patterns add up to the number.
  abbrev pub Fields : Map MatchCondition → ℕ → Type 0
  Fields [] n = n ≡ 0
  Fields ((field, spec) ∷ rest) n =
      (non_empty (trim_space field) ≡ true)
      × (count : ℕ) × (validate_match_condition host spec ≡ ok count)
      × (m : ℕ) × (n ≡ count + m)
      × Fields rest m

  condition_result-ok :
      (i : ℕ) (field : Text) (r : Result ConditionError ℕ) (count : ℕ)
      → condition_result host i field r ≡ ok count
      → r ≡ ok count
  condition_result-ok i field (ok c) count h = ground arith
  condition_result-ok i field (err e) count h = cc

  validate_fields-Fields :
      (i : ℕ) (fields : Map MatchCondition) (total out : ℕ)
      → validate_fields host i fields total ≡ ok out
      → total ≤ max_compiled_patterns
      → (n : ℕ) × Fields fields n × (out ≡ total + n) × (out ≤ max_compiled_patterns)
  unfolding validate_fields
  validate_fields-Fields i [] total out h low = (0, refl, ground arith, ground arith)
  validate_fields-Fields i ((field, spec) ∷ rest) total out h low =
      let (named, h1) = guard-eq-ok (non_empty (trim_space field)) _ _ h in
      let (count, checked, h2) =
        >>=-eq-ok (condition_result host i field (validate_match_condition host spec)) _ h1 in
      let (few, h3) = guard-eq-ok (leb (total + count) max_compiled_patterns) _ _ h2 in
      let (n, fields, sum, bound) =
        validate_fields-Fields i rest (total + count) out h3 (leb→le _ _ few) in
      (
        count + n,
        (named, count, condition_result-ok i field _ count checked, n, refl, fields),
        omega (arith, sum),
        bound,
      )

  -- Every rule is named, warns or blocks, and has match fields that pass; the patterns of all rules
  -- add up to the number.
  abbrev pub Rules : List Commandment → ℕ → Type 0
  Rules [] n = n ≡ 0
  Rules (r ∷ rs) n =
      (non_empty (trim_space r.name) ≡ true)
      × (valid_enforcement host r.enforcement ≡ true)
      × (1 ≤ length r.match_fields)
      × (k : ℕ) × Fields r.match_fields k
      × (m : ℕ) × (n ≡ k + m)
      × Rules rs m

  -- No rule has a name that was seen.
  abbrev Unseen : List Text → List Commandment → Type 0
  Unseen seen rs = All (λ (r : Commandment). member r.name seen ≡ false) rs

  Unseen-add :
      (seen : List Text) (name : Text) (rs : List Commandment)
      → Unseen (add name seen) rs
      → (member name (names rs) ≡ false) × Unseen seen rs
  unfolding member
  Unseen-add seen name [] u = (refl, tt)
  Unseen-add seen name (r ∷ rs) (here, u) =
      let (absent, rest) = Unseen-add seen name rs u in
      let split = member-add name r.name seen in
      let other : (r.name == name) ≡ false = ground (arith, split, ==_comm name r.name) in
      let new : member r.name seen ≡ false = ground (arith, split) in
      (ground (arith, other, absent), (new, rest))

  validate_rules-Rules :
      (i : ℕ) (seen : List Text) (rs : List Commandment) (total : ℕ)
      → validate_rules host i seen rs total ≡ ok tt
      → total ≤ max_compiled_patterns
      → Unseen seen rs
        × Distinct (names rs)
        × (n : ℕ) × Rules rs n
        × (total + n ≤ max_compiled_patterns)
  unfolding validate_rules
  validate_rules-Rules i seen [] total h low = (tt, tt, 0, refl, omega arith)
  validate_rules-Rules i seen (r ∷ rs) total h low =
      let (named, h1) = guard-eq-ok (non_empty (trim_space r.name)) _ _ h in
      let (fresh, h2) = guard-eq-ok (not (member r.name seen)) _ _ h1 in
      let (enforces, h3) = guard-eq-ok (valid_enforcement host r.enforcement) _ _ h2 in
      let (some_field, h4) = guard-eq-ok (ltb 0 (length r.match_fields)) _ _ h3 in
      let (out, checked, h5) = >>=-eq-ok (validate_fields host i r.match_fields total) _ h4 in
      let (k, fields, sum, bound) = validate_fields-Fields i r.match_fields total out checked low in
      let (unseen, distinct, m, rules, fits) =
        validate_rules-Rules (suc i) (add r.name seen) rs out h5 bound in
      let (absent, rest) = Unseen-add seen r.name rs unseen in
      (
        (ground (arith, fresh), rest),
        (absent, distinct),
        k + m,
        (named, enforces, ground (arith, some_field), k, fields, m, refl, rules),
        omega (arith, sum, fits),
      )

  -- A rule set that passes the validation has version 1, at most 100 rules with distinct names that
  -- are not blank, each of which warns or blocks and has at least one match field, all of them named
  -- and with a condition that passes; and the patterns counted for all conditions are at most 200.
  pub validate-Rules :
      (rs : RuleSet)
      → validate host rs ≡ ok tt
      → (rs.version ≡ schema_version_v1)
        × (length rs.commandments ≤ max_rules)
        × Distinct (names rs.commandments)
        × (n : ℕ) × Rules rs.commandments n
        × (n ≤ max_compiled_patterns)
  unfolding validate
  validate-Rules rs h =
      let (version, h1) = guard-eq-ok (rs.version == schema_version_v1) _ _ h in
      let (few, h2) = guard-eq-ok (leb (length rs.commandments) max_rules) _ _ h1 in
      let (unseen, distinct, n, rules, fits) =
        validate_rules-Rules 0 [] rs.commandments 0 h2 (omega arith) in
      (
        (==_iff rs.version schema_version_v1).0 version,
        leb→le _ _ few,
        distinct,
        n,
        rules,
        omega (arith, fits),
      )
