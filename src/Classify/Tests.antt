-- ===== src/Classify/Tests.antt =====
-- The theorem of the tool registry at a concrete configuration.
use crabwise.Common.{Bool, Option, some, [], ◌∷◌, Text, codes, ◌==◌}
use crabwise.Classify.{RegistryConfig, Registry, ToolMapping}

abbrev shell : ToolMapping
shell = record { category = codes "shell"; effect = codes "execute" }

abbrev config : RegistryConfig
config = record {
  version = codes "1";
  providers =
      (
        codes "OpenAI",
        record {
          tools = (codes "bash", shell) ∷ [];
          patterns =
              record {
                rule_match = record { name_glob = codes "sh*" ∷ []; arg_keys_any = [] };
                mapping = shell;
              }
              ∷ [];
        },
      )
      ∷ [];
  heuristics = [];
}

abbrev built : Registry
built = record {
  version = codes "v1";
  providers =
      (
        codes "openai",
        record {
          tools = (codes "bash", shell) ∷ [];
          patterns =
              record { name_globs = codes "sh*" ∷ []; arg_keys_any = []; mapping = shell } ∷ [];
        },
      )
      ∷ [];
  heuristics = [];
  unclassified = 0;
}

abbrev same_text : Text → Text → Option Bool
same_text pattern tool = some (pattern == tool)
