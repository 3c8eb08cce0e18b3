-- ===== src/Commandments/Schema.antt =====
-- internal/commandments/schema.go: the validation of a rule set.
pub mod Laws
use crabwise.Common.{
  ℕ, suc, ◌+◌, Bool, true, false, not, ◌||◌, none, some, List, [], ◌∷◌, Text, codes, ◌==◌,
  non_empty, trim_space, length, leb, ltb, Map, member, add, if◌then◌else◌, any,
}
use crabwise.Common.Result.{Result, ok, err, ◌>>=◌, ◌>>◌, guard}
use crabwise.Commandments.{
  Host, MatchCondition, Commandment, RuleSet, schema_version_v1, max_rules, max_compiled_patterns,
  max_pattern_chars, matcher_type_exact, matcher_type_regex, matcher_type_glob,
  matcher_type_numeric, matcher_type_list,
}

pub data ConditionError : Type 0 where
  type_required pattern_required patterns_required invalid_regex invalid_glob : ConditionError
  pattern_too_long : ℕ → ConditionError
  invalid_op : Text → ConditionError
  numeric_value_required invalid_numeric_value values_required : ConditionError
  invalid_matcher_type : Text → ConditionError

pub data SchemaError : Type 0 where
  unsupported_version : Text → SchemaError
  too_many_rules : ℕ → SchemaError
  name_required : ℕ → SchemaError
  duplicate_name : ℕ → Text → SchemaError
  invalid_enforcement : ℕ → Text → SchemaError
  match_required empty_match_field : ℕ → SchemaError
  invalid_condition : ℕ → Text → ConditionError → SchemaError
  too_many_compiled_patterns : ℕ → SchemaError

unfoldable pub validate_pattern_len : Text → Result ConditionError (Unit {0})
validate_pattern_len pattern =
    guard (leb (length pattern) max_pattern_chars) (pattern_too_long (length pattern))

-- The loop that keeps the patterns that are not blank, trimmed.
unfoldable pub trimmed_patterns : List Text → List Text
trimmed_patterns [] = []
trimmed_patterns (p ∷ ps) =
    if non_empty (trim_space p) then trim_space p ∷ trimmed_patterns ps else trimmed_patterns ps

-- `patterns` in both places that handle a glob matcher.
unfoldable pub glob_patterns : MatchCondition → List Text
unfolding trimmed_patterns
glob_patterns spec =
    if non_empty (trim_space spec.pattern)
    then trim_space spec.pattern ∷ trimmed_patterns spec.patterns
    else trimmed_patterns spec.patterns

abbrev pub one_of : List Text → Text → Bool
one_of options s = any (λ o. s == o) options

abbrev pub numeric_ops : List Text
numeric_ops = codes "gt" ∷ codes "lt" ∷ codes "eq" ∷ codes "gte" ∷ codes "lte" ∷ []

abbrev pub list_ops : List Text
list_ops = codes "in" ∷ codes "not_in" ∷ []

module _ (host : Host) where
  open host use {Regex, compile_regex, glob_match, Float, parse_float}

  unfoldable pub parse_numeric_value : Text → Result ConditionError Float
  parse_numeric_value value =
      let s = trim_space value in
      if not (non_empty s) || (s == codes "<nil>")
      then err numeric_value_required
      else elim (parse_float s) [ none ↦ err invalid_numeric_value | some parsed ↦ ok parsed ]

  abbrev regex_compiles : Text → Bool
  regex_compiles p = elim (compile_regex p) [ none ↦ false | some re ↦ true ]

  abbrev glob_compiles : Text → Bool
  glob_compiles p = elim (glob_match p (codes "x")) [ none ↦ false | some matched ↦ true ]

  unfoldable pub validate_globs : List Text → Result ConditionError (Unit {0})
  unfolding validate_pattern_len
  validate_globs [] = ok tt
  validate_globs (p ∷ ps) = do
    validate_pattern_len p
    guard (glob_compiles p) invalid_glob
    validate_globs ps

  unfoldable pub validate_values : List Text → Result ConditionError (Unit {0})
  unfolding validate_pattern_len
  validate_values [] = ok tt
  validate_values (v ∷ vs) = do validate_pattern_len v; validate_values vs

  validate_exact : MatchCondition → Result ConditionError ℕ
  unfolding validate_pattern_len
  validate_exact spec = do
    let p = trim_space spec.pattern
    guard (non_empty p) pattern_required
    validate_pattern_len p
    ok 1

  validate_regex : MatchCondition → Result ConditionError ℕ
  unfolding validate_pattern_len
  validate_regex spec = do
    let p = trim_space spec.pattern
    guard (non_empty p) pattern_required
    validate_pattern_len p
    guard (regex_compiles p) invalid_regex
    ok 1

  validate_glob : MatchCondition → Result ConditionError ℕ
  unfolding glob_patterns validate_globs
  validate_glob spec = do
    let patterns = glob_patterns spec
    guard (ltb 0 (length patterns)) patterns_required
    validate_globs patterns
    ok (length patterns)

  validate_numeric : MatchCondition → Result ConditionError ℕ
  unfolding parse_numeric_value
  validate_numeric spec = do
    guard (one_of numeric_ops spec.op) (invalid_op spec.op)
    _ ← parse_numeric_value spec.value
    ok 0

  validate_list : MatchCondition → Result ConditionError ℕ
  unfolding validate_values
  validate_list spec = do
    guard (one_of list_ops spec.op) (invalid_op spec.op)
    guard (ltb 0 (length spec.values)) values_required
    validate_values spec.values
    ok (length spec.values)

  unfoldable pub validate_match_condition : MatchCondition → Result ConditionError ℕ
  unfolding validate_exact validate_regex validate_glob validate_numeric validate_list
  validate_match_condition spec =
      let t = trim_space spec.matcher_type in
      if not (non_empty t)
      then err type_required
      else if t == matcher_type_exact
      then validate_exact spec
      else if t == matcher_type_regex
      then validate_regex spec
      else if t == matcher_type_glob
      then validate_glob spec
      else if t == matcher_type_numeric
      then validate_numeric spec
      else if t == matcher_type_list
      then validate_list spec
      else err (invalid_matcher_type t)

  abbrev condition_result : ℕ → Text → Result ConditionError ℕ → Result SchemaError ℕ
  condition_result i field (ok count) = ok count
  condition_result i field (err e) = err (invalid_condition i field e)

  -- The loop over the match fields of rule `i`; the number is `totalPatterns`.
  pub validate_fields : ℕ → Map MatchCondition → ℕ → Result SchemaError ℕ
  unfolding validate_match_condition
  validate_fields i [] total = ok total
  validate_fields i ((field, spec) ∷ rest) total = do
    guard (non_empty (trim_space field)) (empty_match_field i)
    count ← condition_result i field (validate_match_condition spec)
    guard (leb (total + count) max_compiled_patterns) (too_many_compiled_patterns (total + count))
    validate_fields i rest (total + count)

  abbrev valid_enforcement : Text → Bool
  valid_enforcement e = one_of (codes "warn" ∷ codes "block" ∷ []) e

  pub validate_rules : ℕ → List Text → List Commandment → ℕ → Result SchemaError (Unit {0})
  unfolding validate_fields
  validate_rules i seen [] total = ok tt
  validate_rules i seen (r ∷ rs) total = do
    guard (non_empty (trim_space r.name)) (name_required i)
    guard (not (member r.name seen)) (duplicate_name i r.name)
    guard (valid_enforcement r.enforcement) (invalid_enforcement i r.enforcement)
    guard (ltb 0 (length r.match_fields)) (match_required i)
    total' ← validate_fields i r.match_fields total
    validate_rules (suc i) (add r.name seen) rs total'

  -- `RuleSet.Validate`
  unfoldable pub validate : RuleSet → Result SchemaError (Unit {0})
  unfolding validate_rules
  validate rs = do
    guard (rs.version == schema_version_v1) (unsupported_version rs.version)
    guard (leb (length rs.commandments) max_rules) (too_many_rules (length rs.commandments))
    validate_rules 0 [] rs.commandments 0
