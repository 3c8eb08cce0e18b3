-- ===== src/Commandments/Engine.antt =====
-- internal/commandments/engine.go: compilation of the rules in order of priority, and evaluation.
pub mod Priority
use crabwise.Common.{
  ℕ, suc, ◌+◌, Bool, true, false, not, ◌&&◌, ◌||◌, Option, none, some, List, [], ◌∷◌, ◌++◌, map,
  Text, codes, ◌==◌, non_empty, length, leb, Map, ℤ, pos, negsuc, decimal, text_leb, sort_by,
  if◌then◌else◌,
}
use crabwise.Common.Result.{Result, ok, err, ◌>>=◌, ◌>>◌, guard}
use crabwise.Audit.Event.{AuditEvent}
use crabwise.Audit.Logger.{TriggeredRule, EvalResult, gt_int}
use crabwise.Commandments.{
  Host, MatchCondition, Commandment, RuleSet, max_compiled_patterns, is_enabled,
}
use crabwise.Commandments.Schema.{ConditionError}
use crabwise.Commandments.Matchers.{Matcher, matches, compile_matcher}

pub data CompileError : Type 0 where
  bad_field : Text → Text → ConditionError → CompileError
  too_many_patterns : ℕ → CompileError

-- strconv.FormatInt in base 10
unfoldable pub format_int : ℤ → Text
format_int (pos n) = decimal n
format_int (negsuc n) = 45 ∷ decimal (suc n)

-- The order of sort.Slice: by priority, highest first, then by name.
unfoldable pub precedes : Commandment → Commandment → Bool
unfolding gt_int
precedes a b =
    if gt_int a.priority b.priority
    then true
    else if gt_int b.priority a.priority
    then false
    else not (text_leb b.name a.name)

unfoldable pub insert_rule : Commandment → List Commandment → List Commandment
unfolding precedes
insert_rule r [] = r ∷ []
insert_rule r (x ∷ xs) = if precedes x r then x ∷ insert_rule r xs else r ∷ x ∷ xs

unfoldable pub sort_rules : List Commandment → List Commandment
unfolding insert_rule
sort_rules [] = []
sort_rules (r ∷ rs) = insert_rule r (sort_rules rs)

abbrev text_field : Text → Text × Bool
text_field v = (v, non_empty v)

module _ (host : Host) where
  -- A field of the event as text, and whether it is there.
  unfoldable pub event_field_value : AuditEvent → Text → Text × Bool
  unfolding format_int
  event_field_value evt field =
      if field == codes "id"
      then text_field evt.id
      else if field == codes "agent_id"
      then text_field evt.agent_id
      else if field == codes "action_type"
      then text_field evt.action_type
      else if field == codes "action"
      then text_field evt.action
      else if field == codes "arguments"
      then text_field evt.arguments
      else if field == codes "session_id"
      then text_field evt.session_id
      else if field == codes "working_dir"
      then text_field evt.working_dir
      else if field == codes "provider"
      then text_field evt.provider
      else if field == codes "model"
      then text_field evt.model
      else if field == codes "tool_category"
      then text_field evt.tool_category
      else if field == codes "tool_effect"
      then text_field evt.tool_effect
      else if field == codes "tool_name"
      then text_field evt.tool_name
      else if field == codes "adapter_type"
      then text_field evt.adapter_type
      else if field == codes "adapter_id"
      then text_field evt.adapter_id
      else if field == codes "outcome"
      then text_field evt.outcome
      else if field == codes "input_tokens"
      then (format_int evt.input_tokens, true)
      else if field == codes "output_tokens"
      then (format_int evt.output_tokens, true)
      else if field == codes "cost_usd"
      then (host.format_float evt.cost_usd, true)
      else if field == codes "agent_pid"
      then (format_int evt.agent_pid, true)
      else ([], false)

  pub record CompiledCondition : Type 0 where
    pub field : Text
    pub matcher : Matcher host

  pub record CompiledRule : Type 0 where
    pub rule : Commandment
    pub conditions : List CompiledCondition

  unfoldable pub condition_matches : AuditEvent → CompiledCondition → Bool
  unfolding event_field_value
  condition_matches e c =
      let (value, found) = event_field_value e c.field in
      found && non_empty value && matches host c.matcher value

  -- `compiledRule.matches`: all conditions hold.
  unfoldable pub rule_matches : AuditEvent → List CompiledCondition → Bool
  unfolding condition_matches
  rule_matches e [] = true
  rule_matches e (c ∷ cs) = if condition_matches e c then rule_matches e cs else false

  abbrev pub triggered_rule : Commandment → TriggeredRule
  triggered_rule r = record { name = r.name; enforcement = r.enforcement; message = r.message }

  -- The loop of `Evaluate`, with the result so far.
  unfoldable pub evaluate_loop : AuditEvent → List CompiledRule → EvalResult → EvalResult
  unfolding rule_matches
  evaluate_loop evt [] result = result
  evaluate_loop evt (r ∷ rs) result = evaluate_loop evt rs (
      if not (is_enabled r.rule) then result else record {
        evaluated = result.evaluated ++ r.rule.name ∷ [];
        triggered =
            if rule_matches evt r.conditions
            then result.triggered ++ triggered_rule r.rule ∷ []
            else result.triggered;
      })

  unfoldable pub evaluate : List CompiledRule → AuditEvent → EvalResult
  unfolding evaluate_loop
  evaluate rules evt = evaluate_loop evt rules (record { evaluated = []; triggered = [] })

  abbrev compiled_or_error :
      Text
      → Text
      → Result ConditionError (Matcher host × ℕ)
      → Result CompileError (Matcher host × ℕ)
  compiled_or_error rule field (ok m) = ok m
  compiled_or_error rule field (err e) = err (bad_field rule field e)

  pub record Conditions : Type 0 where
    pub conditions : List CompiledCondition
    pub total : ℕ

  -- The loop over the sorted fields of one rule.
  unfoldable pub compile_conditions :
      Text → Map MatchCondition → Conditions → Result CompileError Conditions
  unfolding compile_matcher
  compile_conditions rule [] acc = ok acc
  compile_conditions rule ((field, spec) ∷ rest) acc = do
    m ← compiled_or_error rule field (compile_matcher host spec)
    let total = acc.total + m.1
    guard (leb total max_compiled_patterns) (too_many_patterns total)
    compile_conditions rule rest (record {
      conditions = acc.conditions ++ record { field = field; matcher = m.0 } ∷ [];
      total = total;
    })

  -- The loop over the sorted rules.
  unfoldable pub compile_loop :
      List Commandment → ℕ → List CompiledRule → Result CompileError (List CompiledRule)
  unfolding compile_conditions
  compile_loop [] total compiled = ok compiled
  compile_loop (r ∷ rs) total compiled = do
    cs ←
        compile_conditions r.name (sort_by (λ entry. entry.0) r.match_fields)
          (record { conditions = []; total = total })
    compile_loop rs cs.total (compiled ++ record { rule = r; conditions = cs.conditions } ∷ [])

  unfoldable pub compile_rules : List Commandment → Result CompileError (List CompiledRule)
  unfolding compile_loop sort_rules
  compile_rules rules = compile_loop (sort_rules rules) 0 []
