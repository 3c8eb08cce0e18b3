-- ===== src/Proxy/Policy/Laws.antt =====
-- The events of the proxy: the identifier and the outcome that they begin with, and which tool calls
-- the commandments let through.
use crabwise.Common.{
  ℕ, suc, ◌≡◌, refl, true, false, Option, none, some, List, [], ◌∷◌, Text, if-intro, any, ap, ◌++◌,
  ◌+◌, arith, subst, sym, ◌∙◌, option-intro, ltb, length,
}
use crabwise.Audit.Event.{AuditEvent, outcome_success, outcome_blocked}
use crabwise.Audit.Logger.{EvalResult, TriggeredRule}
use crabwise.Audit.Logger.Outcome.{is_block_rule}
use crabwise.Commandments.Service.{first_block}
use crabwise.Commandments.Service.Laws.{first_block-any, first_block-Blocks, is_found}
use crabwise.Proxy.Provider.{NormalizedRequest, NormalizedTool, ToolUseBlock}
use crabwise.Proxy.Policy.{
  Environment, append_argument_metadata, attributed_match, attribute, tool_event, evaluate_blocks,
  evaluate_tool_use_blocks, first_tool, tools_summary, build_audit_event,
}

module _ (env : Environment) where
  abbrev pub Begun : Text → AuditEvent → Type 0
  Begun id e = (e.id ≡ id) × (e.outcome ≡ outcome_success)

  attribute-Begun :
      (id : Text) (ts : ℕ) (provider model : Text) (e : AuditEvent)
      → Begun id e
      → Begun id (attribute env ts provider model e)
  unfolding attribute attributed_match append_argument_metadata
  attribute-Begun id ts provider model e begun =
      option-intro (Begun id) env.attributor _ _ (λ unset. begun)
        (λ find set.
          option-intro (Begun id) (find ts provider model) _ _ (λ missed. begun) (λ m found. begun))

  tools-Begun :
      (id : Text) (ts : List NormalizedTool) (e : AuditEvent)
      → Begun id e
      → Begun id (tools_summary env ts (first_tool env ts e))
  unfolding tools_summary first_tool append_argument_metadata
  tools-Begun id [] e begun = begun
  tools-Begun id (t ∷ ts) e begun =
      if-intro (Begun id) (ltb 1 (length (t ∷ ts))) _ _ (λ many. begun) (λ one. begun)

  pub build_audit_event-Begun :
      (id : Text) (ts : ℕ) (provider : Text) (req : NormalizedRequest) (endpoint : Text)
      → Begun id (build_audit_event env id ts provider req endpoint)
  unfolding build_audit_event
  build_audit_event-Begun id ts provider req endpoint =
      tools-Begun id req.tools _ (attribute-Begun id ts provider req.model _ (refl, refl))

some_equal : {A : Type 0} {x y : A} → some x ≡ some y → x ≡ y
some_equal h = ground arith

module _ (env : Environment) (eval : AuditEvent → EvalResult) (provider model : Text) where
  -- The commandments have nothing against the n-th tool block.
  abbrev pub Harmless : ℕ → ToolUseBlock → Type 0
  Harmless n block =
      any is_block_rule (eval (tool_event env n block provider model)).triggered ≡ false

  -- They have nothing against the blocks, the first of which is the n-th.
  abbrev pub AllHarmless : ℕ → List ToolUseBlock → Type 0
  AllHarmless n [] = Unit {0}
  AllHarmless n (block ∷ blocks) = Harmless n block × AllHarmless (suc n) blocks

  -- A rule that enforces "block" and triggers on the first block that is not harmless.
  pub record IsVerdict (n : ℕ) (blocks : List ToolUseBlock) (e : AuditEvent) (name : Text)
      : Type 0 where
    pub before : List ToolUseBlock
    pub block : ToolUseBlock
    pub after : List ToolUseBlock
    pub rule : TriggeredRule
    pub index : ℕ
    pub at : blocks ≡ before ++ (block ∷ after)
    pub counted : index ≡ n + length before
    pub harmless : AllHarmless n before
    pub found : first_block (eval (tool_event env index block provider model)).triggered ≡ some rule
    pub blocks_it : is_block_rule rule ≡ true
    pub named : name ≡ rule.name
    pub emitted :
        e ≡ record (tool_event env index block provider model) { outcome = outcome_blocked }

  abbrev pub Judges : ℕ → List ToolUseBlock → Option (AuditEvent × Text) → Type 0
  Judges n blocks none = AllHarmless n blocks
  Judges n blocks (some (e, name)) = IsVerdict n blocks e name

  Judges-later :
      (n : ℕ) (block : ToolUseBlock) (blocks : List ToolUseBlock) (o : Option (AuditEvent × Text))
      → Harmless n block
      → Judges (suc n) blocks o
      → Judges n (block ∷ blocks) o
  Judges-later n block blocks none harmless rest = (harmless, rest)
  Judges-later n block blocks (some (e, name)) harmless r = record {
    before = block ∷ r.before;
    block = r.block;
    after = r.after;
    rule = r.rule;
    at = ap (λ (bs : List ToolUseBlock). block ∷ bs) r.at;
    index = r.index;
    counted = ground (arith, r.counted);
    harmless = (harmless, r.harmless);
    found = r.found;
    blocks_it = r.blocks_it;
    named = r.named;
    emitted = r.emitted;
  }

  evaluate_blocks-Judges :
      (n : ℕ) (blocks : List ToolUseBlock)
      → Judges n blocks (evaluate_blocks env eval n blocks provider model)
  unfolding evaluate_blocks
  evaluate_blocks-Judges n [] = tt
  evaluate_blocks-Judges n (block ∷ blocks) =
      let triggered = (eval (tool_event env n block provider model)).triggered in
      option-intro (Judges n (block ∷ blocks)) (first_block triggered) _ _
        (λ clear.
          Judges-later n block blocks _ (sym (first_block-any triggered) ∙ ap is_found clear)
            (evaluate_blocks-Judges (suc n) blocks))
        (λ t found. record {
          before = [];
          block = block;
          after = blocks;
          rule = t;
          at = refl;
          index = n;
          counted = omega arith;
          harmless = tt;
          found = found;
          blocks_it = first_block-Blocks triggered t found;
          named = refl;
          emitted = refl;
        })

  -- With the commandments set, the tool blocks of a response pass exactly if no rule that enforces
  -- "block" triggers on the event of any of them; otherwise the verdict is about the first one with
  -- such a rule: it is the name of that rule, and its event with the outcome blocked.
  pub evaluate_tool_use_blocks-Judges :
      (blocks : List ToolUseBlock)
      → env.evaluator ≡ some eval
      → Judges 0 blocks (evaluate_tool_use_blocks env blocks provider model)
  unfolding evaluate_tool_use_blocks
  evaluate_tool_use_blocks-Judges blocks set =
      option-intro (Judges 0 blocks) env.evaluator _ _ (λ unset. absurd cc)
        (λ given is.
          let same : given ≡ eval = some_equal (sym is ∙ set) in
          subst
            (λ (f : AuditEvent → EvalResult).
              Judges 0 blocks (evaluate_blocks env f 0 blocks provider model))
            (sym same) (evaluate_blocks-Judges 0 blocks))
