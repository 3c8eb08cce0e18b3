-- ===== src/Commandments/Service/Laws.antt =====
-- The commandments end to end: from the compiled rules to a blocked event and to the gate's decision.
use crabwise.Common.{
  ℕ, ◌≡◌, refl, subst, ap, ◌∙◌, Bool, true, false, not, ◌&&◌, ◌||◌, Option, none, some, List, [],
  ◌∷◌, map, keep, any, Text, codes, ◌==◌, to_lower, equal_fold, arith, Bool-cases, inl, inr,
  if◌then◌else◌,
}
use crabwise.Audit.Event.{AuditEvent, outcome_blocked}
use crabwise.Audit.Logger.{
  Services, EvalResult, TriggeredRule, is_commandments_exempt_system_event, apply_commandments,
  redact, evaluate as logger_evaluate,
}
use crabwise.Audit.Logger.Outcome.{
  is_blocked, is_block_rule, is_log_watcher, apply_commandments-blocked,
}
use crabwise.Commandments.{Host}
use crabwise.Commandments.Engine.{CompiledRule, evaluate, triggered_rule}
use crabwise.Commandments.Engine.Priority.{fires, evaluate_lem}
use crabwise.Commandments.Redaction.{Redactor}
use crabwise.Commandments.Redaction.Laws.{redact-outcome}
use crabwise.Commandments.Service.{
  first_block, with_commandments, Marshal, GateEvaluateParams, GateEvaluateResult, gate_event,
  gate_decision, gate_evaluate,
}

any-map-keep :
    {A B : Type 0} (p : B → Bool) (f : A → B) (q : A → Bool) (xs : List A)
    → any p (map f (keep q xs)) ≡ any (λ x. q x && p (f x)) xs
any-map-keep p f q [] = refl
any-map-keep p f q (x ∷ xs) = ground (arith, any-map-keep p f q xs)

module _ (host : Host) where
  -- An enabled rule that enforces "block" and matches the event.
  abbrev pub blocks : AuditEvent → CompiledRule host → Bool
  blocks e r = fires host e r && is_block_rule (triggered_rule host r.rule)

  any-triggered :
      (rules : List (CompiledRule host)) (e : AuditEvent)
      → any is_block_rule (evaluate host rules e).triggered ≡ any (blocks e) rules
  any-triggered rules e =
      ap (λ (r : EvalResult). any is_block_rule r.triggered) (evaluate_lem host rules e)
      ∙ any-map-keep is_block_rule (λ r. triggered_rule host r.rule) (fires host e) rules

  with_commandments-outcome :
      (rules : List (CompiledRule host)) (redactor : Redactor host) (base : Services)
      (e : AuditEvent) (triggered : Bool)
      → (redact (with_commandments host rules redactor base) e triggered).outcome ≡ e.outcome
  with_commandments-outcome rules redactor base e triggered =
      unfold redact with_commandments in redact-outcome host redactor e triggered

  -- With the engine and the redactor set, the logger marks an event as blocked exactly if it came in
  -- blocked, or it is no exempt system event, does not come from the log watcher, and an enabled rule
  -- that enforces "block" matches it in all its conditions.
  pub commandments-block :
      (rules : List (CompiledRule host)) (redactor : Redactor host) (base : Services)
      (e : AuditEvent)
      → is_blocked (apply_commandments (with_commandments host rules redactor base) e) ≡ (
          is_blocked e
          || (not (is_commandments_exempt_system_event e)
              && (not (is_log_watcher e) && any (blocks e) rules)))
  commandments-block rules redactor base e =
      let s = with_commandments host rules redactor base in
      let general =
        apply_commandments-blocked s e (with_commandments-outcome rules redactor base) in
      let engine : any is_block_rule (logger_evaluate s e).triggered ≡ any (blocks e) rules =
        unfold logger_evaluate with_commandments in any-triggered rules e in
      ground (arith, general, engine)

block-lower : to_lower (codes "block") ≡ codes "block"
unfolding to_lower
block-lower = refl

abbrev pub is_found : Option TriggeredRule → Bool
is_found none = false
is_found (some t) = true

pub first_block-any : (ts : List TriggeredRule) → is_found (first_block ts) ≡ any is_block_rule ts
unfolding first_block equal_fold
first_block-any [] = refl
first_block-any (t ∷ ts) =
    ground (arith, ap (λ (b : Text). to_lower t.enforcement == b) block-lower, first_block-any ts)

-- The rule that is found enforces "block".
pub first_block-Blocks :
    (ts : List TriggeredRule) (t : TriggeredRule) → first_block ts ≡ some t → is_block_rule t ≡ true
unfolding first_block equal_fold to_lower
first_block-Blocks [] t h = cc
first_block-Blocks (x ∷ ts) t h =
    let rest = first_block-Blocks ts t in
    elim (Bool-cases (equal_fold x.enforcement (codes "block"))) [
      | inl hit ↦
          let same : x ≡ t = ground (arith, hit) in
          subst (λ (u : TriggeredRule). is_block_rule u ≡ true) same hit
      | inr miss ↦ rest (ground (arith, miss))
    ]

-- What the gate decides and emits for an event, given whether it is to be blocked.
abbrev pub Decides : Text → AuditEvent → Bool → GateEvaluateResult × List AuditEvent → Type 0
Decides event_id e blocked (result, emitted) =
    (result.decision ≡ (if blocked then codes "block" else codes "pass"))
    × (emitted ≡ (if blocked then record e { outcome = outcome_blocked } ∷ [] else []))
    × (result.gate_event_id ≡ event_id)

gate_decision-Decides :
    (event_id : Text) (e : AuditEvent) (o : Option TriggeredRule)
    → Decides event_id e (is_found o) (gate_decision event_id e o)
unfolding gate_decision
gate_decision-Decides event_id e none = (refl, refl, refl)
gate_decision-Decides event_id e (some t) = (refl, refl, refl)

module _ (host : Host) where
  -- The gate answers "block", and emits the one event with the outcome blocked, exactly if an
  -- enabled rule that enforces "block" matches the event made of the parameters; it answers "pass"
  -- and emits nothing otherwise.
  pub gate_evaluate-Decides :
      (marshal : Marshal) (rules : List (CompiledRule host)) (event_id : Text) (now : ℕ)
      (params : GateEvaluateParams)
      → Decides event_id
          (gate_event marshal event_id now params)
          (any (blocks host (gate_event marshal event_id now params)) rules)
          (gate_evaluate marshal (evaluate host rules) event_id now params)
  unfolding gate_evaluate
  gate_evaluate-Decides marshal rules event_id now params =
      let e = gate_event marshal event_id now params in
      let found = first_block (evaluate host rules e).triggered in
      let is : is_found found ≡ any (blocks host e) rules =
        first_block-any (evaluate host rules e).triggered ∙ any-triggered host rules e in
      subst (λ b. Decides event_id e b (gate_decision event_id e found)) is
        (gate_decision-Decides event_id e found)
