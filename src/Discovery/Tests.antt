-- ===== src/Discovery/Tests.antt =====
-- The theorems of the agent registry at concrete reports.
use crabwise.Common.{◌≡◌, refl, true, none, [], ◌∷◌, codes, ◌==◌, lookup_or, member, if◌then◌else◌}
use crabwise.Discovery.{AgentInfo, Registry, replace_source, get}
use crabwise.Discovery.Laws.{latest, or_else, replace_source-get, replace_source-shared}

abbrev agent : AgentInfo
agent = record {
  id = codes "codex-1";
  agent_type = codes "codex";
  pid = 0;
  status = [];
  session_file = [];
  last_activity_at = 5;
  discovered_at = 0;
}

abbrev nobody : Registry
nobody = record { agents = []; sources = [] }

replace_source-get_example :
    get (codes "codex-1") (replace_source 9 (codes "scanner") (agent ∷ []) nobody)
    ≡ or_else (latest 9 (codes "codex-1") (agent ∷ [])) (
        if member (codes "codex-1") (lookup_or (codes "scanner") nobody.sources [])
        then none
        else get (codes "codex-1") nobody)
replace_source-get_example =
    replace_source-get 9 (codes "scanner") (agent ∷ []) nobody (codes "codex-1")

replace_source-shared_example :
    let reported =
      replace_source 9
        (codes "openclaw")
        (agent ∷ [])
        (replace_source 9 (codes "scanner") (agent ∷ []) nobody) in
    let after = replace_source 9 (codes "openclaw") [] reported in
    (get (codes "codex-1") after ≡ none)
    × (member (codes "codex-1") (lookup_or (codes "scanner") after.sources []) ≡ true)
unfolding ◌==◌
replace_source-shared_example =
    replace_source-shared 9 (codes "scanner") (codes "openclaw") agent nobody refl
