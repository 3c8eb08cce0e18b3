-- ===== src/Classify/Named.antt =====
-- internal/classify/registry.go: the mappings of a registry that is built.
use crabwise.Common.{
  ◌≡◌, Bool, true, false, some, List, [], ◌∷◌, Text, non_empty, trim_space, Map, lookup,
  lookup-insert, insert, subst, ◌||◌, All, arith, if◌then◌else◌, any, ◌⊎◌, inl, inr,
}
use crabwise.Common.Result.{ok, ◌>>◌, guard, >>=-eq-ok, guard-eq-ok}
use crabwise.Classify.{
  ToolMapping, RuleSpec, ProviderRegistry, RegistryConfig, CompiledRule, CompiledProvider, Registry,
  validate_mapping, compile_rules, compile_tools, compile_provider, compile_providers, new_registry,
  normalize_provider, normalize_globs, normalize_arg_keys, to_set, category_required, empty_matcher,
}

abbrev pub IsNamed : ToolMapping → Type 0
IsNamed m = (non_empty (trim_space m.category) ≡ true) × (non_empty (trim_space m.effect) ≡ true)

abbrev pub NamedTools : Map ToolMapping → Type 0
NamedTools tools = (k : Text) (m : ToolMapping) → lookup k tools ≡ some m → IsNamed m

abbrev pub NamedRules : List CompiledRule → Type 0
NamedRules rules = All (λ (r : CompiledRule). IsNamed r.mapping) rules

abbrev pub NamedProvider : CompiledProvider → Type 0
NamedProvider p = NamedTools p.tools × NamedRules p.patterns

abbrev pub NamedProviders : Map CompiledProvider → Type 0
NamedProviders ps = (k : Text) (p : CompiledProvider) → lookup k ps ≡ some p → NamedProvider p

-- Every mapping of the registry has a category and an effect that are not blank.
abbrev pub IsNamedRegistry : Registry → Type 0
IsNamedRegistry r = NamedProviders r.providers × NamedRules r.heuristics

validate_mapping-IsNamed : (m : ToolMapping) → validate_mapping m ≡ ok tt → IsNamed m
unfolding validate_mapping
validate_mapping-IsNamed m h =
    let (category, rest) = guard-eq-ok (non_empty (trim_space m.category)) category_required _ h in
    (category, ground (arith, rest))

compile_rules-NamedRules :
    (specs : List RuleSpec) (rules : List CompiledRule)
    → compile_rules specs ≡ ok rules
    → NamedRules rules
unfolding compile_rules
compile_rules-NamedRules [] rules h =
    let done : [] ≡ rules = ground arith in subst NamedRules done tt
compile_rules-NamedRules (spec ∷ specs) rules h =
    let globs = normalize_globs spec.rule_match.name_glob in
    let arg_keys = to_set (normalize_arg_keys spec.rule_match.arg_keys_any) in
    let first : CompiledRule = record {
      name_globs = globs;
      arg_keys_any = arg_keys;
      mapping = spec.mapping;
    } in
    let matcher = guard (any (λ g. true) globs || any (λ k. true) arg_keys) empty_matcher in
    let (rest, before, h1) =
      >>=-eq-ok (validate_mapping spec.mapping >> matcher >> compile_rules specs) _ h in
    let (u, checked, compiled) = >>=-eq-ok (validate_mapping spec.mapping >> matcher) _ before in
    let (v, valid, h2) = >>=-eq-ok (validate_mapping spec.mapping) _ checked in
    let done : first ∷ rest ≡ rules = ground (arith, h1) in
    subst NamedRules done
      (validate_mapping-IsNamed spec.mapping valid, compile_rules-NamedRules specs rest compiled)

insert-NamedTools :
    (name : Text) (m : ToolMapping) (tools : Map ToolMapping)
    → IsNamed m
    → NamedTools tools
    → NamedTools (insert name m tools)
insert-NamedTools name m tools valid h k found at =
    let split = lookup-insert name k m tools in
    let cases : (m ≡ found) ⊎ (lookup k tools ≡ some found) = ground (arith, split) in
    elim cases [ inl e ↦ subst IsNamed e valid | inr e ↦ h k found e ]

compile_tools-NamedTools :
    (entries tools out : Map ToolMapping)
    → NamedTools tools
    → compile_tools entries tools ≡ ok out
    → NamedTools out
unfolding compile_tools
compile_tools-NamedTools [] tools out named h =
    let done : tools ≡ out = ground arith in subst NamedTools done named
compile_tools-NamedTools ((name, m) ∷ entries) tools out named h =
    go (non_empty (trim_space name)) h (compile_tools-NamedTools entries tools out named) (λ valid.
      compile_tools-NamedTools entries (insert name m tools) out
        (insert-NamedTools name m tools valid named))
  where
    go :
        (b : Bool)
        → (if b
            then validate_mapping m >> compile_tools entries (insert name m tools)
            else compile_tools entries tools)
          ≡ ok out
        → (compile_tools entries tools ≡ ok out → NamedTools out)
        → (IsNamed m → compile_tools entries (insert name m tools) ≡ ok out → NamedTools out)
        → NamedTools out
    go false e skip take = skip e
    go true e skip take =
        let (unit, valid, rest) = >>=-eq-ok (validate_mapping m) _ e in
        take (validate_mapping-IsNamed m valid) rest

insert-NamedProviders :
    (name : Text) (p : CompiledProvider) (ps : Map CompiledProvider)
    → NamedProvider p
    → NamedProviders ps
    → NamedProviders (insert name p ps)
insert-NamedProviders name p ps valid h k found at =
    let split = lookup-insert name k p ps in
    let cases : (p ≡ found) ⊎ (lookup k ps ≡ some found) = ground (arith, split) in
    elim cases [ inl e ↦ subst NamedProvider e valid | inr e ↦ h k found e ]

compile_provider-NamedProvider :
    (p : ProviderRegistry) (out : CompiledProvider)
    → compile_provider p ≡ ok out
    → NamedProvider out
unfolding compile_provider
compile_provider-NamedProvider p out h =
    let (tools, compiled, h1) = >>=-eq-ok (compile_tools p.tools []) _ h in
    let (patterns, ruled, h2) = >>=-eq-ok (compile_rules p.patterns) _ h1 in
    let same : record { tools = tools; patterns = patterns } ≡ out = ground (arith, h2) in
    subst NamedProvider same (
      compile_tools-NamedTools p.tools [] tools (λ k m e. unfold lookup in cc) compiled,
      compile_rules-NamedRules p.patterns patterns ruled,
    )

compile_providers-NamedProviders :
    (entries : Map ProviderRegistry) (out done : Map CompiledProvider)
    → NamedProviders out
    → compile_providers entries out ≡ ok done
    → NamedProviders done
unfolding compile_providers
compile_providers-NamedProviders [] out done named h =
    let same : out ≡ done = ground arith in subst NamedProviders same named
compile_providers-NamedProviders ((name, p) ∷ entries) out done named h =
    let (compiled, is, rest) = >>=-eq-ok (compile_provider p) _ h in
    compile_providers-NamedProviders entries (insert (normalize_provider name) compiled out) done
      (insert-NamedProviders (normalize_provider name) compiled out
        (compile_provider-NamedProvider p compiled is) named)
      rest

-- A registry that is built has only mappings with a category and an effect.
pub new_registry-IsNamedRegistry :
    (cfg : RegistryConfig) (r : Registry) → new_registry cfg ≡ ok r → IsNamedRegistry r
unfolding new_registry
new_registry-IsNamedRegistry cfg r h =
    let (ps, compiled, h1) = >>=-eq-ok (compile_providers cfg.providers []) _ h in
    let (rules, ruled, h2) = >>=-eq-ok (compile_rules cfg.heuristics) _ h1 in
    let providers : ps ≡ r.providers = ground (arith, h2) in
    let heuristics : rules ≡ r.heuristics = ground (arith, h2) in
    (
      subst NamedProviders providers (
          compile_providers-NamedProviders cfg.providers [] ps (λ k p e. unfold lookup in cc)
            compiled),
      subst NamedRules heuristics (compile_rules-NamedRules cfg.heuristics rules ruled),
    )
