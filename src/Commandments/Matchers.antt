-- ===== src/Commandments/Matchers.antt =====
-- internal/commandments/matchers.go: the compiled matchers.
use crabwise.Common.{
  ℕ, Bool, false, not, ◌||◌, none, some, List, [], ◌∷◌, Text, codes, ◌==◌, trim_space, length,
  member, if◌then◌else◌,
}
use crabwise.Common.Result.{Result, ok, err, ◌>>=◌}
use crabwise.Commandments.{
  Host, MatchCondition, matcher_type_exact, matcher_type_regex, matcher_type_glob,
  matcher_type_numeric, matcher_type_list,
}
use crabwise.Commandments.Schema.{
  ConditionError, invalid_regex, invalid_matcher_type, glob_patterns, parse_numeric_value,
}

module _ (host : Host) where
  open host use {
    Regex, compile_regex, match_string, glob_match, Float, parse_float, float_lt, float_le,
    float_eq,
  }

  mutual
    pub data Matcher : Type 0 where
      exact : Text → Matcher
      regex : Regex → Matcher
      glob : Text → Matcher
      numeric : Text → Float → Matcher
      one_of_list : List Text → Bool → Matcher
      any_of : Matchers → Matcher

    pub data Matchers : Type 0 where
      nil : Matchers
      cons : Matcher → Matchers → Matchers

  -- `n OP target`
  unfoldable pub compare_numeric : Text → Float → Float → Bool
  compare_numeric op n target =
      if op == codes "gt"
      then float_lt target n
      else if op == codes "lt"
      then float_lt n target
      else if op == codes "eq"
      then float_eq n target
      else if op == codes "gte"
      then float_le target n
      else if op == codes "lte"
      then float_le n target
      else false

  unfoldable pub match_numeric : Text → Float → Text → Bool
  unfolding compare_numeric
  match_numeric op target value = elim (parse_float (trim_space value)) [
    | none ↦ false
    | some n ↦ compare_numeric op n target
  ]

  unfoldable pub match_glob : Text → Text → Bool
  match_glob pattern value = elim (glob_match pattern value) [
    | none ↦ false
    | some matched ↦ matched
  ]

  unfoldable mutual
    unfolding match_numeric match_glob

    pub matches : Matcher → Text → Bool
    matches (exact expected) value = value == expected
    matches (regex re) value = match_string re value
    matches (glob pattern) value = match_glob pattern value
    matches (numeric op target) value = match_numeric op target value
    matches (one_of_list values negate) value =
        if negate then not (member value values) else member value values
    matches (any_of ms) value = matches_any ms value

    pub matches_any : Matchers → Text → Bool
    matches_any nil value = false
    matches_any (cons m ms) value = matches m value || matches_any ms value

  unfoldable pub glob_matchers : List Text → Matchers
  glob_matchers [] = nil
  glob_matchers (p ∷ ps) = cons (glob p) (glob_matchers ps)

  unfoldable pub compile_glob : List Text → Matcher × ℕ
  unfolding glob_matchers
  compile_glob (p ∷ []) = (glob p, 1)
  compile_glob patterns = (any_of (glob_matchers patterns), length patterns)

  compile_regex_matcher : Text → Result ConditionError (Matcher × ℕ)
  compile_regex_matcher pattern = elim (compile_regex pattern) [
    | none ↦ err invalid_regex
    | some re ↦ ok (regex re, 1)
  ]

  compile_numeric : MatchCondition → Result ConditionError (Matcher × ℕ)
  unfolding parse_numeric_value
  compile_numeric spec = do
    target ← parse_numeric_value host spec.value
    ok (numeric spec.op target, 0)

  -- The type is compared as it stands here, while the validation trims it.
  unfoldable pub compile_matcher : MatchCondition → Result ConditionError (Matcher × ℕ)
  unfolding compile_regex_matcher compile_glob compile_numeric
  compile_matcher spec =
      if spec.matcher_type == matcher_type_exact
      then ok (exact spec.pattern, 1)
      else if spec.matcher_type == matcher_type_regex
      then compile_regex_matcher spec.pattern
      else if spec.matcher_type == matcher_type_glob
      then ok (compile_glob (glob_patterns spec))
      else if spec.matcher_type == matcher_type_numeric
      then compile_numeric spec
      else if spec.matcher_type == matcher_type_list
      then ok (one_of_list spec.values (spec.op == codes "not_in"), length spec.values)
      else err (invalid_matcher_type spec.matcher_type)
