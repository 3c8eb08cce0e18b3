-- ===== src/Audit/Logger/Outcome.antt =====
-- The outcome that the commandments give an event.
use crabwise.Common.{
  ◌≡◌, refl, ap, ◌∙◌, inl, inr, Bool, true, false, not, ◌&&◌, ◌||◌, List, [], ◌∷◌, Text, codes,
  ◌==◌, ==_iff, ==_refl, any, arith, ltb, length, to_lower, ℤ, pos, Bool-cases, if◌then◌else◌,
}
use crabwise.Audit.Event.{AuditEvent, outcome_success, outcome_warned, outcome_blocked}
use crabwise.Audit.Logger.{
  TriggeredRule, Services, outcome_for_enforcement, outcome_rank, gt_int, raise_outcome,
  raise_outcomes, is_commandments_exempt_system_event, evaluate, redact, annotate,
  apply_commandments,
}

abbrev pub is_blocked : AuditEvent → Bool
is_blocked e = e.outcome == outcome_blocked

abbrev pub is_block_rule : TriggeredRule → Bool
is_block_rule rule = to_lower rule.enforcement == codes "block"

abbrev pub is_log_watcher : AuditEvent → Bool
is_log_watcher e = e.adapter_type == codes "log_watcher"

rank-blocked : outcome_rank outcome_blocked ≡ pos 3
unfolding outcome_rank ◌==◌
rank-blocked = refl

rank-warned : outcome_rank outcome_warned ≡ pos 1
unfolding outcome_rank ◌==◌
rank-warned = refl

rank-success : outcome_rank outcome_success ≡ pos 0
unfolding outcome_rank ◌==◌
rank-success = refl

warned-ne-blocked : (outcome_warned == outcome_blocked) ≡ false
unfolding ◌==◌
warned-ne-blocked = refl

success-ne-blocked : (outcome_success == outcome_blocked) ≡ false
unfolding ◌==◌
success-ne-blocked = refl

block-ne-warn : (codes "block" == codes "warn") ≡ false
unfolding ◌==◌
block-ne-warn = refl

gt-rank-unblocked :
    (o : Text) → (o == outcome_blocked) ≡ false → gt_int (pos 3) (outcome_rank o) ≡ true
unfolding gt_int outcome_rank
gt-rank-unblocked o h = ground arith

-- The candidate of a rule is blocked exactly for a block rule outside the log watcher.
candidate-blocked :
    (enforcement adapter : Text)
    → (outcome_for_enforcement enforcement adapter == outcome_blocked)
      ≡ (not (adapter == codes "log_watcher") && (to_lower enforcement == codes "block"))
unfolding outcome_for_enforcement
candidate-blocked enforcement adapter = ground (
  arith,
  warned-ne-blocked,
  success-ne-blocked,
  block-ne-warn,
  ==_refl outcome_blocked,
  ==_iff (to_lower enforcement) (codes "warn"),
  ==_iff (to_lower enforcement) (codes "block"),
)

raise_outcome-adapter :
    (e : AuditEvent) (r : TriggeredRule) → (raise_outcome e r).adapter_type ≡ e.adapter_type
unfolding raise_outcome
raise_outcome-adapter e r = ground arith

rank-le-blocked : (o : Text) → gt_int (outcome_rank o) (pos 3) ≡ false
unfolding gt_int outcome_rank
rank-le-blocked o = ground arith

abbrev higher : Text → Text → Text
higher candidate current =
    if gt_int (outcome_rank candidate) (outcome_rank current) then candidate else current

higher-blocked :
    (candidate current : Text)
    → (higher candidate current == outcome_blocked)
      ≡ ((current == outcome_blocked) || (candidate == outcome_blocked))
higher-blocked candidate current = elim (Bool-cases (current == outcome_blocked)) [
  | inl c ↦
      let e = (==_iff _ _).0 c in
      let stays : gt_int (outcome_rank candidate) (outcome_rank current) ≡ false =
        ap (λ (o : Text). gt_int (outcome_rank candidate) (outcome_rank o)) e
        ∙ ap (gt_int (outcome_rank candidate)) rank-blocked
        ∙ rank-le-blocked candidate in
      ground (arith, stays, c)
  | inr c ↦ elim (Bool-cases (candidate == outcome_blocked)) [
    | inl d ↦
        let e = (==_iff _ _).0 d in
        let goes : gt_int (outcome_rank candidate) (outcome_rank current) ≡ true =
          ap (λ (o : Text). gt_int (outcome_rank o) (outcome_rank current)) e
          ∙ ap (λ (r : ℤ). gt_int r (outcome_rank current)) rank-blocked
          ∙ gt-rank-unblocked current c in
        ground (arith, goes, c, d)
    | inr d ↦ ground (arith, c, d)
  ]
]

raise_outcome-higher :
    (e : AuditEvent) (r : TriggeredRule)
    → (raise_outcome e r).outcome
      ≡ higher (outcome_for_enforcement r.enforcement e.adapter_type) e.outcome
unfolding raise_outcome
raise_outcome-higher e r = ground arith

raise_outcome-blocked :
    (e : AuditEvent) (r : TriggeredRule)
    → is_blocked (raise_outcome e r) ≡ (is_blocked e || (not (is_log_watcher e) && is_block_rule r))
raise_outcome-blocked e r =
    ap (λ (o : Text). o == outcome_blocked) (raise_outcome-higher e r)
    ∙ higher-blocked _ e.outcome
    ∙ ap (λ (b : Bool). is_blocked e || b) (candidate-blocked r.enforcement e.adapter_type)

raise_outcomes-blocked :
    (rules : List TriggeredRule) (e : AuditEvent)
    → is_blocked (raise_outcomes rules e)
      ≡ (is_blocked e || (not (is_log_watcher e) && any is_block_rule rules))
unfolding raise_outcomes
raise_outcomes-blocked [] e = ground arith
raise_outcomes-blocked (r ∷ rules) e =
    let ih = raise_outcomes-blocked rules (raise_outcome e r) in
    let a = ap (λ (t : Text). t == codes "log_watcher") (raise_outcome-adapter e r) in
    ground (arith, ih, a, raise_outcome-blocked e r)

-- The redactor that is set, if any, leaves the outcome alone.
abbrev pub RedactorKeepsOutcome : Services → Type 0
RedactorKeepsOutcome services =
    (e : AuditEvent) (rule_triggered : Bool)
    → (redact services e rule_triggered).outcome ≡ e.outcome

-- If the redactor leaves outcomes alone, an event that is not exempt leaves the commandments with
-- outcome blocked exactly if it came in blocked, or does not come from the log watcher and some
-- triggered rule enforces "block" in any case; an exempt event keeps its outcome.
pub apply_commandments-blocked :
    (services : Services) (e : AuditEvent)
    → RedactorKeepsOutcome services
    → is_blocked (apply_commandments services e) ≡ (
        if is_commandments_exempt_system_event e
        then is_blocked e
        else is_blocked e
          || (not (is_log_watcher e) && any is_block_rule (evaluate services e).triggered))
unfolding apply_commandments annotate
apply_commandments-blocked services e keeps =
    elim (Bool-cases (is_commandments_exempt_system_event e)) [
      | inl x ↦ ground (arith, x)
      | inr x ↦
          let result = evaluate services e in
          let k =
            ap (λ (o : Text). o == outcome_blocked)
              (keeps (raise_outcomes result.triggered (annotate services result e))
                (ltb 0 (length result.triggered))) in
          let r = raise_outcomes-blocked result.triggered (annotate services result e) in
          ground (arith, x, k, r)
    ]
