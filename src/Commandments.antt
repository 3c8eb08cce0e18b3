-- ===== src/Commandments.antt =====
-- internal/commandments: the rules for agents, their validation, compilation,
-- evaluation and the redaction of arguments. Regular expressions, globs and float64 are those of
-- package regexp, of doublestar and of the language, and come as a `Host`.
pub mod Schema
pub mod Matchers
pub mod Engine
pub mod Redaction
pub mod Service
mod Tests
use crabwise.Common.{ℕ, Bool, true, Option, none, some, List, Text, codes, ℤ, Map}

pub record Host : Type 1 where
  -- regexp.Compile, MatchString and FindAllStringIndex
  pub Regex : Type 0
  pub compile_regex : Text → Option Regex
  pub match_string : Regex → Text → Bool
  pub find_all : Regex → Text → ℕ → List (ℕ × ℕ)
  -- doublestar.Match of a pattern and a value; `none` is an error.
  pub glob_match : Text → Text → Option Bool
  -- float64: strconv.ParseFloat, the comparisons, and FormatFloat of a bit pattern.
  pub Float : Type 0
  pub parse_float : Text → Option Float
  pub float_lt : Float → Float → Bool
  pub float_le : Float → Float → Bool
  pub float_eq : Float → Float → Bool
  pub format_float : ℕ → Text

abbrev pub schema_version_v1 : Text
schema_version_v1 = codes "1"

abbrev pub max_rules : ℕ
max_rules = 100

abbrev pub max_compiled_patterns : ℕ
max_compiled_patterns = 200

abbrev pub max_pattern_chars : ℕ
max_pattern_chars = 1024

abbrev pub max_redactions_per_field : ℕ
max_redactions_per_field = 50

abbrev pub max_redaction_field_bytes : ℕ
max_redaction_field_bytes = 1_048_576

abbrev pub matcher_type_exact : Text
matcher_type_exact = codes "exact"

abbrev pub matcher_type_regex : Text
matcher_type_regex = codes "regex"

abbrev pub matcher_type_glob : Text
matcher_type_glob = codes "glob"

abbrev pub matcher_type_numeric : Text
matcher_type_numeric = codes "numeric"

abbrev pub matcher_type_list : Text
matcher_type_list = codes "list"

-- `value` is what fmt.Sprint makes of the decoded value.
pub record MatchCondition : Type 0 where
  pub matcher_type : Text
  pub pattern : Text
  pub patterns : List Text
  pub op : Text
  pub values : List Text
  pub value : Text

-- The order of `match_fields` is the order in which a range visits the map.
pub record Commandment : Type 0 where
  pub name : Text
  pub description : Text
  pub enforcement : Text
  pub priority : ℤ
  pub enabled : Option Bool
  pub match_fields : Map MatchCondition
  pub redact : Bool
  pub message : Text

pub record RuleSet : Type 0 where
  pub version : Text
  pub commandments : List Commandment

abbrev pub is_enabled : Commandment → Bool
is_enabled c = elim c.enabled [ none ↦ true | some enabled ↦ enabled ]
