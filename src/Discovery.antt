-- ===== src/Discovery.antt =====
-- internal/discovery/registry.go: the agents that are known, and which source reported which.
pub mod Laws
mod Tests
use crabwise.Common.{
  ℕ, ◌-◌, ◌*◌, Bool, true, false, not, ◌&&◌, Option, none, some, List, [], ◌∷◌, ◌++◌, Text, codes,
  Map, lookup, insert, delete, lookup_or, member, add, map, length, ltb, nat_eq, if◌then◌else◌,
}

-- Times are nanoseconds since the zero time.
pub record AgentInfo : Type 0 where
  pub id : Text
  pub agent_type : Text
  pub pid : ℕ
  pub status : Text
  pub session_file : Text
  pub last_activity_at : ℕ
  pub discovered_at : ℕ

pub record Registry : Type 0 where
  pub agents : Map AgentInfo
  pub sources : Map (List Text)

pub new_registry : Registry
new_registry = record { agents = []; sources = [] }

abbrev pub active_window : ℕ
active_window = 5 * 60 * 1000000000

-- `now` is the reading of the clock.
unfoldable pub normalize_agent : ℕ → AgentInfo → AgentInfo
normalize_agent now a =
    let a' = if nat_eq a.discovered_at 0 then record a { discovered_at = now } else a in
    if nat_eq a'.pid 0 && not (nat_eq a'.last_activity_at 0)
    then record a' {
      status =
          if ltb (now - a'.last_activity_at) active_window
          then codes "active"
          else codes "inactive";
    }
    else a'

-- The loop over the reported agents: the agents and the ids seen.
unfoldable pub add_agents :
    ℕ → List AgentInfo → Map AgentInfo → List Text → Map AgentInfo × List Text
unfolding normalize_agent
add_agents now [] agents next = (agents, next)
add_agents now (a ∷ more) agents next =
    let a' = normalize_agent now a in add_agents now more (insert a'.id a' agents) (add a'.id next)

-- The loop over the ids that the source had reported before.
unfoldable pub drop_missing : List Text → List Text → Map AgentInfo → Map AgentInfo
drop_missing [] next agents = agents
drop_missing (id ∷ prev) next agents =
    if member id next
    then drop_missing prev next agents
    else drop_missing prev next (delete id agents)

unfoldable pub replace_source : ℕ → Text → List AgentInfo → Registry → Registry
unfolding add_agents drop_missing
replace_source now source reported r =
    let prev = lookup_or source r.sources [] in
    let (agents, next) = add_agents now reported r.agents [] in
    record { agents = drop_missing prev next agents; sources = insert source next r.sources }

-- `Update`, used by the scanner.
pub update : ℕ → List AgentInfo → Registry → Registry
update now reported r = replace_source now (codes "scanner") reported r

pub list_agents : Registry → List AgentInfo
list_agents r = map (λ entry. entry.1) r.agents

unfoldable pub get : Text → Registry → Option AgentInfo
get id r = lookup id r.agents

pub count : Registry → ℕ
count r = length r.agents
