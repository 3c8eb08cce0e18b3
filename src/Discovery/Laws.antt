-- ===== src/Discovery/Laws.antt =====
-- What replacing the report of a source does to every agent.
use crabwise.Common.{
  ℕ, ◌≡◌, refl, true, false, not, ◌&&◌, Option, none, some, List, [], ◌∷◌, Text, ◌==◌, ==_iff,
  ==_refl, Map, lookup, insert, delete, lookup_or, lookup-insert, lookup-delete, member, add,
  member-add, is_some, arith, if◌then◌else◌,
}
use crabwise.Discovery.{
  AgentInfo, Registry, normalize_agent, add_agents, drop_missing, replace_source, get,
}

normalize_agent-id : (now : ℕ) (a : AgentInfo) → (normalize_agent now a).id ≡ a.id
unfolding normalize_agent
normalize_agent-id now a = ground arith

-- The last agent of a report with the given id, normalized.
abbrev pub latest : ℕ → Text → List AgentInfo → Option AgentInfo
latest now id [] = none
latest now id (a ∷ reported) = elim (latest now id reported) [
  | some b ↦ some b
  | none ↦ if a.id == id then some (normalize_agent now a) else none
]

abbrev pub or_else : Option AgentInfo → Option AgentInfo → Option AgentInfo
or_else (some a) o = some a
or_else none o = o

add_agents-lookup :
    (now : ℕ) (reported : List AgentInfo) (agents : Map AgentInfo) (next : List Text) (id : Text)
    → lookup id (add_agents now reported agents next).0
      ≡ or_else (latest now id reported) (lookup id agents)
unfolding add_agents
add_agents-lookup now [] agents next id = refl
add_agents-lookup now (a ∷ reported) agents next id =
    let a' = normalize_agent now a in
    ground (
      arith,
      normalize_agent-id now a,
      lookup-insert a'.id id a' agents,
      add_agents-lookup now reported (insert a'.id a' agents) (add a'.id next) id,
    )

add_agents-member :
    (now : ℕ) (reported : List AgentInfo) (agents : Map AgentInfo) (next : List Text) (id : Text)
    → member id (add_agents now reported agents next).1
      ≡ (if is_some (latest now id reported) then true else member id next)
unfolding add_agents
add_agents-member now [] agents next id = refl
add_agents-member now (a ∷ reported) agents next id =
    let a' = normalize_agent now a in
    ground (
      arith,
      normalize_agent-id now a,
      member-add a'.id id next,
      add_agents-member now reported (insert a'.id a' agents) (add a'.id next) id,
    )

drop_missing-lookup :
    (prev next : List Text) (agents : Map AgentInfo) (id : Text)
    → lookup id (drop_missing prev next agents)
      ≡ (if member id prev && not (member id next) then none else lookup id agents)
unfolding drop_missing member
drop_missing-lookup [] next agents id = refl
drop_missing-lookup (j ∷ prev) next agents id = ground (
  arith,
  ==_iff j id,
  lookup-delete j id agents,
  drop_missing-lookup prev next agents id,
  drop_missing-lookup prev next (delete j agents) id,
)

-- After a source's report is replaced, an agent of the report is the last one reported with its id,
-- one that the source had reported before and does not report now is gone, and every other agent is
-- what it was.
pub replace_source-get :
    (now : ℕ) (source : Text) (reported : List AgentInfo) (r : Registry) (id : Text)
    → get id (replace_source now source reported r)
      ≡ or_else
          (latest now id reported)
          (if member id (lookup_or source r.sources []) then none else get id r)
unfolding get replace_source
replace_source-get now source reported r id =
    let prev = lookup_or source r.sources [] in
    let added = add_agents now reported r.agents [] in
    let absent : member id [] ≡ false = unfold member in refl in
    ground (
      arith,
      absent,
      drop_missing-lookup prev added.1 added.0 id,
      add_agents-lookup now reported r.agents [] id,
      add_agents-member now reported r.agents [] id,
    )

replace_source-sources :
    (now : ℕ) (source other : Text) (reported : List AgentInfo) (r : Registry)
    → lookup other (replace_source now source reported r).sources ≡ (
        if source == other
        then some (add_agents now reported r.agents []).1
        else lookup other r.sources)
unfolding replace_source
replace_source-sources now source other reported r =
    lookup-insert source other (add_agents now reported r.agents []).1 r.sources

-- When two different sources report the same agent and the second one then reports nothing, the
-- agent is gone, although the first source's report still lists its id.
pub replace_source-shared :
    (now : ℕ) (first second : Text) (a : AgentInfo) (r : Registry)
    → (first == second) ≡ false
    → (let reported = replace_source now second (a ∷ []) (replace_source now first (a ∷ []) r) in
        let after = replace_source now second [] reported in
        (get a.id after ≡ none) × (member a.id (lookup_or first after.sources []) ≡ true))
replace_source-shared now first second a r differ =
    let one = replace_source now first (a ∷ []) r in
    let two = replace_source now second (a ∷ []) one in
    let three = replace_source now second [] two in
    let empty : member a.id [] ≡ false = unfold member in refl in
    let listed : (s : Registry) → member a.id (add_agents now (a ∷ []) s.agents []).1 ≡ true =
      λ s. ground (arith, add_agents-member now (a ∷ []) s.agents [] a.id, ==_refl a.id) in
    (
      ground (
        arith,
        replace_source-get now second [] two a.id,
        replace_source-sources now second second (a ∷ []) one,
        ==_refl second,
        listed one,
      ),
      ground (
        arith,
        ==_iff first second,
        ==_iff second first,
        replace_source-sources now second first [] two,
        replace_source-sources now second first (a ∷ []) one,
        replace_source-sources now first first (a ∷ []) r,
        ==_refl first,
        listed r,
      ),
    )
