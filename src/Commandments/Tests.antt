-- ===== src/Commandments/Tests.antt =====
-- The theorems of the commandments at a concrete host, rules and events.
use crabwise.Common.{
  Distinct, member, trim_space, ℕ, zero, suc, ◌+◌, ◌≤◌, ◌<◌, ◌≡◌, refl, true, false, not, ◌&&◌,
  ◌||◌, none, some, List, [], ◌∷◌, Text, codes, ◌==◌, length, any, map, ltb, leb, nat_eq, pos,
  arith, sort_by,
}
use mathlib.Core.List.{Perm}
use crabwise.Common.Result.{ok}
use crabwise.Audit.Event.{AuditEvent}
use crabwise.Audit.Logger.{apply_commandments, is_commandments_exempt_system_event}
use crabwise.Audit.Logger.Outcome.{is_blocked, is_log_watcher}
use crabwise.Audit.Samples.{plain_services, first_event}
use crabwise.Commandments.{
  Host, Commandment, MatchCondition, matcher_type_exact, max_redaction_field_bytes,
}
use crabwise.Commandments.Schema.{validate, validate_match_condition, validate_pattern_len}
use crabwise.Commandments.Schema.Laws.{names, Rules, validate-Rules}
use crabwise.Commandments.{RuleSet, schema_version_v1, max_rules, max_compiled_patterns}
use crabwise.Commandments.Matchers.{exact, compile_matcher}
use crabwise.Commandments.Engine.{
  CompiledRule, evaluate, compile_rules, compile_conditions, compile_loop, sort_rules, insert_rule,
}
use crabwise.Commandments.Engine.Priority.{
  IsPrioritized, enabled_names, fired, evaluate_lem, compile_rules-IsPrioritized,
}
use crabwise.Commandments.Redaction.{Redactor, redact}
use crabwise.Commandments.Redaction.Laws.{FindsMatches, redact-oversized}
use crabwise.Commandments.Service.{
  with_commandments, Marshal, GateEvaluateParams, gate_event, gate_evaluate,
}
use crabwise.Commandments.Service.Laws.{blocks, Decides, commandments-block, gate_evaluate-Decides}

-- Any pattern finds the first byte.
abbrev first_byte : Text → List (ℕ × ℕ)
first_byte [] = []
first_byte (c ∷ s) = (0, 1) ∷ []

-- Every pattern compiles to itself; numbers are whole.
abbrev host : Host
host = record {
  Regex = Text;
  compile_regex = λ p. some p;
  match_string = λ p s. p == s;
  find_all = λ p s n. first_byte s;
  glob_match = λ p s. some (p == s);
  Float = ℕ;
  parse_float = λ s. none;
  float_lt = ltb;
  float_le = leb;
  float_eq = nat_eq;
  format_float = λ bits. [];
}

abbrev rm_condition : MatchCondition
rm_condition = record {
  matcher_type = matcher_type_exact;
  pattern = codes "rm";
  patterns = [];
  op = [];
  values = [];
  value = [];
}

abbrev no_rm : Commandment
no_rm = record {
  name = codes "no-rm";
  description = [];
  enforcement = codes "block";
  priority = pos 5;
  enabled = none;
  match_fields = (codes "action", rm_condition) ∷ [];
  redact = false;
  message = codes "no";
}

abbrev compiled_no_rm : CompiledRule host
compiled_no_rm = record {
  rule = no_rm;
  conditions = record { field = codes "action"; matcher = exact (codes "rm") } ∷ [];
}

evaluate_lem_example : evaluate host (compiled_no_rm ∷ []) first_event ≡ record {
  evaluated = enabled_names host (compiled_no_rm ∷ []);
  triggered = fired host first_event (compiled_no_rm ∷ []);
}
evaluate_lem_example = evaluate_lem host (compiled_no_rm ∷ []) first_event

abbrev redactor : Redactor host
redactor = record { always_on = codes "key" ∷ []; rule_triggered = [] }

commandments-block_example :
    is_blocked (
      apply_commandments
        (with_commandments host (compiled_no_rm ∷ []) redactor plain_services)
        first_event)
    ≡ (is_blocked first_event
        || (not (is_commandments_exempt_system_event first_event)
            && (not (is_log_watcher first_event)
                && any (blocks host first_event) (compiled_no_rm ∷ []))))
commandments-block_example =
    commandments-block host (compiled_no_rm ∷ []) redactor plain_services first_event

abbrev params : GateEvaluateParams
params = record {
  agent_id = codes "openclaw";
  tool_name = codes "rm";
  tool_category = codes "shell";
  tool_effect = codes "execute";
  targets = record { argv = codes "rm" ∷ []; paths = []; path_mode = [] };
}

abbrev marshal : Marshal
marshal argv command paths path_mode = command

gate_evaluate-Decides_example :
    Decides
      (codes "gate-1")
      (gate_event marshal (codes "gate-1") 3 params)
      (any (blocks host (gate_event marshal (codes "gate-1") 3 params)) (compiled_no_rm ∷ []))
      (gate_evaluate marshal (evaluate host (compiled_no_rm ∷ [])) (codes "gate-1") 3 params)
gate_evaluate-Decides_example =
    gate_evaluate-Decides host marshal (compiled_no_rm ∷ []) (codes "gate-1") 3 params

no_rm-compiles : compile_rules host (no_rm ∷ []) ≡ ok (compiled_no_rm ∷ [])
unfolding compile_rules compile_loop compile_conditions sort_rules insert_rule compile_matcher
    sort_by ◌==◌
no_rm-compiles = refl

compile_rules-IsPrioritized_example :
    IsPrioritized (map (λ (r : CompiledRule host). r.rule) (compiled_no_rm ∷ []))
    × Perm (map (λ (r : CompiledRule host). r.rule) (compiled_no_rm ∷ [])) (no_rm ∷ [])
compile_rules-IsPrioritized_example =
    compile_rules-IsPrioritized host (no_rm ∷ []) (compiled_no_rm ∷ []) no_rm-compiles

repeated : ℕ → Text
repeated zero = []
repeated (suc n) = b'A' ∷ repeated n

length-repeated : (n : ℕ) → length (repeated n) ≡ n
unfolding repeated
length-repeated zero = refl
length-repeated (suc n) = omega (arith, length-repeated n)

-- Arguments of one byte more than the limit.
abbrev big_event : AuditEvent
big_event = record first_event { arguments = repeated (1048576 + 1) }

big_event-IsOversized : max_redaction_field_bytes < length big_event.arguments
big_event-IsOversized = omega (arith, length-repeated (1048576 + 1))

finds-first : FindsMatches host
finds-first re [] n = ground arith
finds-first re (c ∷ s) n = ground arith

redact-oversized_example :
    (length (redact host redactor big_event true).arguments ≤ 788)
    × ((redact host redactor big_event true).redacted ≡ true)
redact-oversized_example =
    redact-oversized host finds-first redactor big_event true big_event-IsOversized

abbrev rule_set : RuleSet
rule_set = record { version = codes "1"; commandments = no_rm ∷ [] }

rule_set-passes : validate host rule_set ≡ ok tt
unfolding validate validate_match_condition validate_pattern_len trim_space ◌==◌ member
rule_set-passes = refl

validate-Rules_example :
    (rule_set.version ≡ schema_version_v1)
    × (length rule_set.commandments ≤ max_rules)
    × Distinct (names rule_set.commandments)
    × (n : ℕ) × Rules host rule_set.commandments n
    × (n ≤ max_compiled_patterns)
validate-Rules_example = validate-Rules host rule_set rule_set-passes
