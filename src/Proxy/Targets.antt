-- ===== src/Proxy/Targets.antt =====
-- internal/adapter/proxy/tooluse.go: what a tool call is aimed at, from the JSON of its arguments.
use crabwise.Common.{
  ℕ, Bool, not, ◌&&◌, ◌||◌, Option, none, some, List, [], ◌∷◌, keep, any, Text, codes, ◌==◌,
  non_empty, to_lower, has_prefix, contains, leb, nat_eq, Map, lookup, if◌then◌else◌,
}
use crabwise.Proxy.Provider.{ToolTargets}

abbrev pub no_targets : ToolTargets
no_targets = record { argv = []; paths = []; path_mode = [] }

is_blank : ℕ → Bool
is_blank c = nat_eq c 32 || (leb 9 c && leb c 13)

prepend : ℕ → List Text → List Text
prepend c [] = (c ∷ []) ∷ []
prepend c (word ∷ words) = (c ∷ word) ∷ words

-- What lies between the blanks, also where it is empty.
pieces : Text → List Text
unfolding is_blank prepend
pieces [] = [] ∷ []
pieces (c ∷ s) = let rest = pieces s in if is_blank c then [] ∷ rest else prepend c rest

-- `strings.Fields`
unfoldable pub fields : Text → List Text
unfolding pieces
fields s = keep non_empty (pieces s)

unfoldable pub extract_paths_from_argv : List Text → List Text
extract_paths_from_argv argv =
    keep (λ arg. non_empty arg && (not (has_prefix arg (codes "-")) && contains arg (codes "/")))
      argv

abbrev one_of : List Text → Text → Bool
one_of names name = any (λ n. name == n) names

unfoldable pub infer_path_mode : List Text → Text
infer_path_mode [] = []
infer_path_mode (cmd ∷ args) =
    if one_of (codes "rm" ∷ codes "rmdir" ∷ codes "unlink" ∷ codes "shred" ∷ []) cmd
    then codes "delete"
    else if one_of
        (codes "cat"
          ∷ codes "head"
          ∷ codes "tail"
          ∷ codes "less"
          ∷ codes "more"
          ∷ codes "wc"
          ∷ codes "grep"
          ∷ codes "find"
          ∷ codes "ls"
          ∷ [])
        cmd
    then codes "read"
    else codes "write"

-- `unmarshal_map` is the decoding of an object, `unmarshal_string` what a string variable holds after
-- the decoding of a value, empty if that is no string.
module _ (unmarshal_map : Text → Option (Map Text)) (unmarshal_string : Text → Text) where
  string_member : Text → Map Text → Text
  string_member key m = elim (lookup key m) [ none ↦ [] | some v ↦ unmarshal_string v ]

  unfoldable pub parse_bash_targets : Map Text → ToolTargets
  unfolding string_member fields extract_paths_from_argv infer_path_mode
  parse_bash_targets m =
      let cmd = string_member (codes "command") m in
      let argv = fields cmd in
      if non_empty cmd
      then record {
        argv = argv;
        paths = extract_paths_from_argv argv;
        path_mode = infer_path_mode argv;
      }
      else no_targets

  unfoldable pub parse_file_targets : Map Text → Text → Text → ToolTargets
  unfolding string_member
  parse_file_targets m key mode =
      let p = string_member key m in
      if non_empty p then record { argv = []; paths = p ∷ []; path_mode = mode } else no_targets

  targets_of_map : Text → Map Text → ToolTargets
  unfolding parse_bash_targets parse_file_targets
  targets_of_map name m =
      if one_of (codes "bash" ∷ codes "computer" ∷ []) name
      then parse_bash_targets m
      else if one_of (codes "write" ∷ codes "multiedit" ∷ []) name
      then parse_file_targets m (codes "path") (codes "write")
      else if one_of (codes "edit" ∷ codes "notebookedit" ∷ []) name
      then parse_file_targets m (codes "file_path") (codes "write")
      else if one_of (codes "read" ∷ codes "glob" ∷ codes "grep" ∷ []) name
      then parse_file_targets m (codes "file_path") (codes "read")
      else no_targets

  unfoldable pub parse_targets : Text → Text → ToolTargets
  unfolding targets_of_map
  parse_targets tool_name input = elim (unmarshal_map input) [
    | none ↦ no_targets
    | some m ↦ targets_of_map (to_lower tool_name) m
  ]
