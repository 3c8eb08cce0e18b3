-- ===== src/Classify.antt =====
-- internal/classify: the registry that gives a tool call its category and effect. Maps are lists of
-- entries in the order a `range` visits them; doublestar's matching is a parameter.
pub mod Named
pub mod Laws
mod Tests
use crabwise.Common.{
  ℕ, ◌+◌, ◌%◌, ◌^◌, Bool, true, false, not, ◌&&◌, ◌||◌, Option, none, some, List, [], ◌∷◌, ◌++◌,
  Text, codes, non_empty, to_lower, trim_space, has_prefix, Map, lookup, insert, member, add,
  sort_by, any, if◌then◌else◌,
}
use crabwise.Common.Result.{Result, ok, err, ◌>>=◌, ◌>>◌, guard}

abbrev pub default_provider_key : Text
default_provider_key = codes "_default"

abbrev pub default_taxonomy_version : Text
default_taxonomy_version = codes "v1"

abbrev pub category_other : Text
category_other = codes "other"

abbrev pub effect_unknown : Text
effect_unknown = codes "unknown"

abbrev pub source_exact : Text
source_exact = codes "exact"

abbrev pub source_pattern : Text
source_pattern = codes "pattern"

abbrev pub source_heuristic : Text
source_heuristic = codes "heuristic"

abbrev pub source_fallback : Text
source_fallback = codes "fallback"

pub record ToolMapping : Type 0 where
  pub category : Text
  pub effect : Text

pub record RuleMatch : Type 0 where
  pub name_glob : List Text
  pub arg_keys_any : List Text

pub record RuleSpec : Type 0 where
  pub rule_match : RuleMatch
  pub mapping : ToolMapping

pub record ProviderRegistry : Type 0 where
  pub tools : Map ToolMapping
  pub patterns : List RuleSpec

pub record RegistryConfig : Type 0 where
  pub version : Text
  pub providers : Map ProviderRegistry
  pub heuristics : List RuleSpec

pub record CompiledRule : Type 0 where
  pub name_globs : List Text
  pub arg_keys_any : List Text
  pub mapping : ToolMapping

pub record CompiledProvider : Type 0 where
  pub tools : Map ToolMapping
  pub patterns : List CompiledRule

pub record Registry : Type 0 where
  pub version : Text
  pub providers : Map CompiledProvider
  pub heuristics : List CompiledRule
  pub unclassified : ℕ

pub record ClassifyResult : Type 0 where
  pub category : Text
  pub effect : Text
  pub taxonomy_version : Text
  pub classification_source : Text

pub data RegistryError : Type 0 where
  category_required effect_required empty_matcher : RegistryError

unfoldable pub validate_mapping : ToolMapping → Result RegistryError (Unit {0})
validate_mapping m =
    guard (non_empty (trim_space m.category)) category_required
    >> guard (non_empty (trim_space m.effect)) effect_required

unfoldable pub normalize_taxonomy_version : Text → Text
normalize_taxonomy_version version =
    let v = trim_space version in
    if not (non_empty v) then [] else if has_prefix v (codes "v") then v else codes "v" ++ v

unfoldable pub normalize_provider : Text → Text
normalize_provider provider =
    let p = to_lower (trim_space provider) in if non_empty p then p else default_provider_key

unfoldable pub normalize_globs : List Text → List Text
normalize_globs [] = []
normalize_globs (g ∷ gs) =
    let pattern = to_lower (trim_space g) in
    if non_empty pattern then pattern ∷ normalize_globs gs else normalize_globs gs

-- argkeys.go
unfoldable pub normalize_arg_key : Text → Text
normalize_arg_key key = to_lower (trim_space key)

key_set : List Text → List Text → List Text
unfolding normalize_arg_key
key_set [] out = out
key_set (key ∷ keys) out =
    let k = normalize_arg_key key in
    if non_empty k then key_set keys (add k out) else key_set keys out

unfoldable pub sort_unique_keys : List Text → List Text
sort_unique_keys m = sort_by (λ k. k) m

unfoldable pub normalize_arg_keys : List Text → List Text
unfolding key_set sort_unique_keys
normalize_arg_keys keys = sort_unique_keys (key_set keys [])

unfoldable pub to_set : List Text → List Text
to_set [] = []
to_set (v ∷ vs) = if non_empty v then add v (to_set vs) else to_set vs

unfoldable pub compile_rules : List RuleSpec → Result RegistryError (List CompiledRule)
unfolding validate_mapping normalize_globs normalize_arg_keys to_set
compile_rules [] = ok []
compile_rules (spec ∷ specs) =
    let globs = normalize_globs spec.rule_match.name_glob in
    let arg_keys = to_set (normalize_arg_keys spec.rule_match.arg_keys_any) in
    validate_mapping spec.mapping
    >> guard (any (λ g. true) globs || any (λ k. true) arg_keys) empty_matcher
    >> compile_rules specs
    >>= λ rest.
        ok (record { name_globs = globs; arg_keys_any = arg_keys; mapping = spec.mapping } ∷ rest)

unfoldable pub compile_tools :
    Map ToolMapping → Map ToolMapping → Result RegistryError (Map ToolMapping)
compile_tools [] tools = ok tools
compile_tools ((name, mapping) ∷ entries) tools =
    let rest = compile_tools entries (insert name mapping tools) in
    if non_empty (trim_space name)
    then validate_mapping mapping >> rest
    else compile_tools entries tools

unfoldable pub compile_provider : ProviderRegistry → Result RegistryError CompiledProvider
unfolding compile_tools compile_rules
compile_provider p = compile_tools p.tools [] >>= λ tools.
    compile_rules p.patterns >>= λ patterns. ok (record { tools = tools; patterns = patterns })

unfoldable pub compile_providers :
    Map ProviderRegistry → Map CompiledProvider → Result RegistryError (Map CompiledProvider)
unfolding compile_provider normalize_provider
compile_providers [] out = ok out
compile_providers ((name, p) ∷ entries) out = compile_provider p >>= λ compiled.
    compile_providers entries (insert (normalize_provider name) compiled out)

-- An empty normalized name does not occur: `normalizeProvider` gives the default key for it.
unfoldable pub new_registry : RegistryConfig → Result RegistryError Registry
unfolding normalize_taxonomy_version compile_providers
new_registry cfg =
    let v = normalize_taxonomy_version cfg.version in
    compile_providers cfg.providers [] >>= λ providers.
    compile_rules cfg.heuristics >>= λ heuristics. ok (record {
      version = if non_empty v then v else default_taxonomy_version;
      providers = providers;
      heuristics = heuristics;
      unclassified = 0;
    })

pub new_fallback_registry : Registry
new_fallback_registry = record {
  version = default_taxonomy_version;
  providers = [];
  heuristics = [];
  unclassified = 0;
}

unfoldable pub fallback_result : Text → ClassifyResult
fallback_result version = record {
  category = category_other;
  effect = effect_unknown;
  taxonomy_version = if non_empty version then version else default_taxonomy_version;
  classification_source = source_fallback;
}

unfoldable pub result_for : Registry → ToolMapping → Text → ClassifyResult
result_for r mapping source = record {
  category = mapping.category;
  effect = mapping.effect;
  taxonomy_version = r.version;
  classification_source = source;
}

-- The tools and the patterns of a provider; a provider the registry lacks has none.
abbrev pub tool_of : Registry → Text → Text → Option ToolMapping
tool_of r provider tool = elim (lookup provider r.providers) [
  | none ↦ none
  | some p ↦ lookup tool p.tools
]

abbrev pub patterns_of : Registry → Text → List CompiledRule
patterns_of r provider = elim (lookup provider r.providers) [ none ↦ [] | some p ↦ p.patterns ]

-- `glob` is doublestar.Match, `none` a malformed pattern.
module _ (glob : Text → Text → Option Bool) where
  abbrev glob_hit : Text → Text → Bool
  glob_hit tool pattern = elim (glob pattern tool) [ none ↦ false | some matched ↦ matched ]

  abbrev empty : List Text → Bool
  empty xs = not (any (λ x. true) xs)

  unfoldable pub matches_rule : CompiledRule → Text → List Text → Bool
  matches_rule rule tool keys =
      (empty rule.name_globs || any (glob_hit tool) rule.name_globs)
      && (empty rule.arg_keys_any || any (λ k. member k keys) rule.arg_keys_any)

  unfoldable pub match_rules : List CompiledRule → Text → List Text → Option ToolMapping
  unfolding matches_rule
  match_rules [] tool keys = none
  match_rules (rule ∷ rules) tool keys =
      if matches_rule rule tool keys then some rule.mapping else match_rules rules tool keys

  unfoldable pub match_pattern : Registry → Text → Text → List Text → Option ClassifyResult
  unfolding result_for match_rules
  match_pattern r provider tool keys = elim (match_rules (patterns_of r provider) tool keys) [
    | some mapping ↦ some (result_for r mapping source_pattern)
    | none ↦ elim (match_rules (patterns_of r default_provider_key) tool keys) [
      | some mapping ↦ some (result_for r mapping source_pattern)
      | none ↦ none
    ]
  ]

  -- The exact lookups, in their order.
  unfoldable pub exact_mapping : Registry → Text → Text → Text → Option ToolMapping
  exact_mapping r provider tool lower_tool = elim (tool_of r provider tool) [
    | some mapping ↦ some mapping
    | none ↦ elim (tool_of r provider lower_tool) [
      | some mapping ↦ some mapping
      | none ↦ tool_of r default_provider_key lower_tool
    ]
  ]

  -- The result, and the registry with its counter of unclassified calls.
  unfoldable pub classify : Registry → Text → Text → List Text → ClassifyResult × Registry
  unfolding exact_mapping match_pattern
  classify r provider tool_name arg_keys =
      let provider_key = normalize_provider provider in
      let lower_tool = to_lower (trim_space tool_name) in
      let keys = to_set (normalize_arg_keys arg_keys) in
      elim (exact_mapping r provider_key tool_name lower_tool) [
        | some mapping ↦ (result_for r mapping source_exact, r)
        | none ↦ elim (match_pattern r provider_key lower_tool keys) [
          | some result ↦ (result, r)
          | none ↦ elim (match_rules r.heuristics lower_tool keys) [
            | some mapping ↦ (result_for r mapping source_heuristic, r)
            | none ↦ (
              fallback_result r.version,
              record r { unclassified = (r.unclassified + 1) % 2 ^ 64 },
            )
          ]
        ]
      ]
