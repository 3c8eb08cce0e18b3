-- ===== src/Commandments/Engine/Priority.antt =====
-- The order of the compiled rules, and evaluation as a filter.
use mathlib.Core.List.{Perm, map-append}
use mathlib.Core.List.Perm
use crabwise.Common.{
  ℕ, Bool-cases, ◌⊎◌, inl, inr, ◌≡◌, sym, ap, ◌∙◌, Bool, true, false, not, ◌&&◌, List, [], ◌∷◌,
  ◌++◌, map, Text, keep, arith, text_leb, text_leb_total, append_assoc, append-nil, if◌then◌else◌,
  if-intro, subst, ap₂, sort_by,
}
use crabwise.Common.Result.{ok, >>=-eq-ok}
use crabwise.Audit.Event.{AuditEvent}
use crabwise.Audit.Logger.{EvalResult, TriggeredRule, gt_int}
use crabwise.Audit.Logger.Ranks.{Below, gt_int-Below, gt_int-equal}
use crabwise.Commandments.{Host, Commandment, is_enabled}
use crabwise.Commandments.Engine.{
  precedes, insert_rule, sort_rules, CompiledRule, rule_matches, triggered_rule, evaluate_loop,
  evaluate, compile_loop, compile_rules, compile_conditions,
}

precedes_asym : (a b : Commandment) → precedes a b ≡ true → precedes b a ≡ false
unfolding precedes
precedes_asym a b h = ground (arith, text_leb_total b.name a.name)

-- A higher priority, or an equal one and a name that is not after the other.
abbrev pub Outranks : Commandment → Commandment → Type 0
Outranks a b =
    Below b.priority a.priority ⊎ ((a.priority ≡ b.priority) × (text_leb a.name b.name ≡ true))

-- Each rule outranks the next one.
abbrev pub IsPrioritized : List Commandment → Type 0
IsPrioritized [] = Unit
IsPrioritized (a ∷ []) = Unit
IsPrioritized (a ∷ b ∷ rs) = Outranks a b × IsPrioritized (b ∷ rs)

-- A rule that another one does not precede outranks it.
precedes-Outranks : (a b : Commandment) → precedes b a ≡ false → Outranks a b
unfolding precedes
precedes-Outranks a b h = elim (Bool-cases (gt_int a.priority b.priority)) [
  | inl above ↦ inl (gt_int-Below a.priority b.priority above)
  | inr level ↦ elim (Bool-cases (gt_int b.priority a.priority)) [
    | inl below ↦ absurd (ground (arith, below))
    | inr equal ↦ inr (gt_int-equal a.priority b.priority level equal, ground (arith, level, equal))
  ]
]

-- No rule precedes the one before it.
abbrev Unbroken : List Commandment → Type 0
Unbroken [] = Unit
Unbroken (a ∷ []) = Unit
Unbroken (a ∷ b ∷ rs) = (precedes b a ≡ false) × Unbroken (b ∷ rs)

Unbroken-IsPrioritized : (rs : List Commandment) → Unbroken rs → IsPrioritized rs
Unbroken-IsPrioritized [] h = tt
Unbroken-IsPrioritized (a ∷ []) h = tt
Unbroken-IsPrioritized (a ∷ b ∷ rs) h =
    (precedes-Outranks a b h.0, Unbroken-IsPrioritized (b ∷ rs) h.1)

insert_rule-Unbroken :
    (r : Commandment) (rs : List Commandment) → Unbroken rs → Unbroken (insert_rule r rs)
unfolding insert_rule
insert_rule-Unbroken r [] h = tt
insert_rule-Unbroken r (x ∷ []) h = ground (arith, precedes_asym x r)
insert_rule-Unbroken r (x ∷ y ∷ rs) h =
    ground (arith, precedes_asym x r, insert_rule-Unbroken r (y ∷ rs) h.1)

sort_rules-Unbroken : (rs : List Commandment) → Unbroken (sort_rules rs)
unfolding sort_rules
sort_rules-Unbroken [] = tt
sort_rules-Unbroken (r ∷ rs) = insert_rule-Unbroken r (sort_rules rs) (sort_rules-Unbroken rs)

insert_rule-perm : (r : Commandment) (rs : List Commandment) → Perm (insert_rule r rs) (r ∷ rs)
unfolding insert_rule
insert_rule-perm r [] = Perm.refl (r ∷ [])
insert_rule-perm r (x ∷ rs) =
    if-intro (λ (l : List Commandment). Perm l (r ∷ x ∷ rs)) (precedes x r) _ _
      (λ _. Perm.trans (Perm.cons x (insert_rule-perm r rs)) (Perm.swap r x rs))
      (λ _. Perm.refl (r ∷ x ∷ rs))

sort_rules-perm : (rs : List Commandment) → Perm (sort_rules rs) rs
unfolding sort_rules
sort_rules-perm [] = Perm.refl []
sort_rules-perm (r ∷ rs) =
    Perm.trans (insert_rule-perm r (sort_rules rs)) (Perm.cons r (sort_rules-perm rs))

module _ (host : Host) where
  abbrev pub fires : AuditEvent → CompiledRule host → Bool
  fires evt r = is_enabled r.rule && rule_matches host evt r.conditions

  abbrev rules_of : List (CompiledRule host) → List Commandment
  rules_of = map (λ r. r.rule)

  compile_loop-rules :
      (rs : List Commandment) (total : ℕ) (before compiled : List (CompiledRule host))
      → compile_loop host rs total before ≡ ok compiled
      → rules_of compiled ≡ rules_of before ++ rs
  unfolding compile_loop
  compile_loop-rules [] total before compiled h = ground (arith, append-nil (rules_of before))
  compile_loop-rules (r ∷ rs) total before compiled h =
      let m =
        compile_conditions host r.name (sort_by (λ entry. entry.0) r.match_fields)
          (record { conditions = []; total = total }) in
      let (cs, _, rest) =
        >>=-eq-ok m
          (λ cs.
            compile_loop host rs cs.total
              (before ++ record { rule = r; conditions = cs.conditions } ∷ []))
          h in
      compile_loop-rules rs cs.total _ compiled rest
      ∙ ap (λ (l : List Commandment). l ++ rs)
          (map-append (λ c. c.rule) before (record { rule = r; conditions = cs.conditions } ∷ []))
      ∙ append_assoc (rules_of before) (r ∷ []) rs

  -- A rule set that compiles gives a compiled rule for each of its rules, in an order in which each
  -- has a higher priority than the next one, or an equal priority and a name that is not after the
  -- next one's in the order of bytes.
  pub compile_rules-IsPrioritized :
      (rs : List Commandment) (compiled : List (CompiledRule host))
      → compile_rules host rs ≡ ok compiled
      → IsPrioritized (rules_of compiled) × Perm (rules_of compiled) rs
  unfolding compile_rules
  compile_rules-IsPrioritized rs compiled h =
      subst (λ (l : List Commandment). IsPrioritized l × Perm l rs)
        (sym (compile_loop-rules (sort_rules rs) 0 [] compiled h))
        (Unbroken-IsPrioritized (sort_rules rs) (sort_rules-Unbroken rs), sort_rules-perm rs)

  abbrev pub enabled_names : List (CompiledRule host) → List Text
  enabled_names rules = map (λ r. r.rule.name) (keep (λ r. is_enabled r.rule) rules)

  abbrev pub fired : AuditEvent → List (CompiledRule host) → List TriggeredRule
  fired evt rules = map (λ r. triggered_rule host r.rule) (keep (fires evt) rules)

  abbrev after_rule : AuditEvent → CompiledRule host → EvalResult → EvalResult
  after_rule evt r result = if not (is_enabled r.rule) then result else record {
    evaluated = result.evaluated ++ r.rule.name ∷ [];
    triggered =
        if rule_matches host evt r.conditions
        then result.triggered ++ triggered_rule host r.rule ∷ []
        else result.triggered;
  }

  evaluate_loop-evaluated :
      (evt : AuditEvent) (rules : List (CompiledRule host)) (result : EvalResult)
      → (evaluate_loop host evt rules result).evaluated ≡ result.evaluated ++ enabled_names rules
  unfolding evaluate_loop
  evaluate_loop-evaluated evt [] result = sym (append-nil result.evaluated)
  evaluate_loop-evaluated evt (r ∷ rules) result =
      evaluate_loop-evaluated evt rules (after_rule evt r result)
      ∙ ground (arith, append_assoc result.evaluated (r.rule.name ∷ []) (enabled_names rules))

  evaluate_loop-triggered :
      (evt : AuditEvent) (rules : List (CompiledRule host)) (result : EvalResult)
      → (evaluate_loop host evt rules result).triggered ≡ result.triggered ++ fired evt rules
  unfolding evaluate_loop
  evaluate_loop-triggered evt [] result = sym (append-nil result.triggered)
  evaluate_loop-triggered evt (r ∷ rules) result =
      evaluate_loop-triggered evt rules (after_rule evt r result)
      ∙ ground
          (arith, append_assoc result.triggered (triggered_rule host r.rule ∷ []) (fired evt rules))

  -- Evaluation reports the names of the enabled rules, and of those the rules all of whose
  -- conditions match the event, both in the order of the compiled rules.
  pub evaluate_lem :
      (rules : List (CompiledRule host)) (evt : AuditEvent)
      → evaluate host rules evt
        ≡ record { evaluated = enabled_names rules; triggered = fired evt rules }
  unfolding evaluate
  evaluate_lem rules evt =
      ap₂ (λ (a : List Text) (b : List TriggeredRule). record { evaluated = a; triggered = b })
        (evaluate_loop-evaluated evt rules (record { evaluated = []; triggered = [] }))
        (evaluate_loop-triggered evt rules (record { evaluated = []; triggered = [] }))
