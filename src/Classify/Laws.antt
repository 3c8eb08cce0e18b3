-- ===== src/Classify/Laws.antt =====
-- internal/classify/registry.go: the mappings that a classification can come from.
use crabwise.Common.{◌%◌, ◌^◌, ◌+◌, ◌≡◌, ◌==◌, if◌then◌else◌}
use crabwise.Classify.{Registry, ClassifyResult, source_fallback}
use crabwise.Classify.Named.{IsNamed}

abbrev pub IsNamedResult : ClassifyResult → Type 0
IsNamedResult c = IsNamed (record { category = c.category; effect = c.effect })

-- What a classification promises: a category and an effect, and the counter of unclassified calls
-- goes up by one modulo 2 ^ 64 exactly if the source is the fallback.
abbrev pub Classified : Registry → ClassifyResult × Registry → Type 0
Classified r (c, after) =
    IsNamedResult c
    × (if c.classification_source == source_fallback
        then after ≡ record r { unclassified = (r.unclassified + 1) % 2 ^ 64 }
        else after ≡ r)
