-- ===== src/LogWatcher/Codex/Shapes.antt =====
-- internal/adapter/logwatcher/codexcli.go: the shapes of a Codex session's lines and what the types
-- and texts in them are taken for. The members of the JSON objects are given by their decoding.
use crabwise.Common.{
  Bool, true, false, not, ◌&&◌, ◌||◌, Option, none, some, List, [], ◌∷◌, ◌++◌, Text, codes, ◌==◌,
  non_empty, trim_space, to_lower, trim_suffix, has_suffix, contains, any, keep, Map, ℤ,
  if◌then◌else◌,
}
use crabwise.Common.Result.{Result}
use crabwise.LogWatcher.ClaudeCode.{Decoder, CcUsage}

abbrev pub parser_version : Text
parser_version = codes "codex-parser-v0.1"

pub record CodexEnvelope : Type 0 where
  pub timestamp : Text
  pub envelope_type : Text
  pub payload : Text

pub record SessionMeta : Type 0 where
  pub id : Text
  pub cwd : Text
  pub cli_version : Text
  pub model : Text
  pub model_provider : Text

pub record ResponseItem : Type 0 where
  pub item_type : Text
  pub role : Text
  pub content : Text
  pub text : Text
  pub model : Text
  pub name : Text
  pub tool_name : Text
  pub arguments : Text
  pub input : Text
  pub usage : Option CcUsage

pub record CodexBlock : Type 0 where
  pub block_type : Text
  pub text : Text
  pub name : Text
  pub tool_name : Text
  pub arguments : Text
  pub input : Text

pub record EventMsg : Type 0 where
  pub msg_type : Text
  pub message : Text
  pub reason : Text

pub record TurnContext : Type 0 where
  pub cwd : Text
  pub model : Text
  pub approval_policy : Text

-- The two members of `usage`, `none` where it or the member is absent.
pub record TokenCount : Type 0 where
  pub model : Text
  pub input_tokens : ℤ
  pub output_tokens : ℤ
  pub usage_input : Option ℤ
  pub usage_output : Option ℤ

-- Package json on these shapes, and the regular expression of session identifiers. A map is
-- marshalled without an error.
pub record CodexDecoder : Type 0 where
  pub unmarshal_envelope : Text → Result Text CodexEnvelope
  pub unmarshal_meta : Text → Result Text SessionMeta
  pub unmarshal_item : Text → Result Text ResponseItem
  pub unmarshal_tokens : Text → Result Text TokenCount
  pub unmarshal_turn : Text → Result Text TurnContext
  pub unmarshal_msg : Text → Result Text EventMsg
  pub unmarshal_block_list : Text → Option (List CodexBlock)
  pub unmarshal_block : Text → Option CodexBlock
  pub unmarshal_string : Text → Option Text
  pub marshal : Map Text → Text
  pub find_session_id : Text → Text

-- A block of type "text".
abbrev pub text_block : Text → CodexBlock
text_block text = record {
  block_type = codes "text";
  text = text;
  name = [];
  tool_name = [];
  arguments = [];
  input = [];
}

unfoldable pub first_non_empty : List Text → Text
first_non_empty [] = []
first_non_empty (v ∷ vs) = if non_empty (trim_space v) then v else first_non_empty vs

abbrev pub is_raw : Text → Bool
is_raw raw = non_empty raw && not (raw == codes "null")

unfoldable pub first_non_empty_raw : List Text → Text
first_non_empty_raw [] = []
first_non_empty_raw (v ∷ vs) = if is_raw v then v else first_non_empty_raw vs

unfoldable pub join_lines : List Text → Text
join_lines [] = []
join_lines (l ∷ []) = l
join_lines (l ∷ next ∷ ls) = l ++ (10 ∷ join_lines (next ∷ ls))

abbrev one_of : List Text → Text → Bool
one_of names t = any (λ name. t == name) names

unfoldable pub is_text_type : Text → Bool
is_text_type t = one_of (codes "text" ∷ codes "output_text" ∷ []) t

unfoldable pub is_tool_type : Text → Bool
is_tool_type t =
    one_of (codes "tool_call" ∷ codes "function_call" ∷ codes "tool_use" ∷ []) (to_lower t)

unfoldable pub is_ignored_response_type : Text → Bool
is_ignored_response_type t =
    one_of (codes "reasoning" ∷ codes "function_call_output" ∷ []) (to_lower (trim_space t))

unfoldable pub is_dynamic_tool_type : Text → Bool
is_dynamic_tool_type t =
    let name = to_lower (trim_space t) in
    if non_empty name then contains name (codes "web_search") else false

unfoldable pub is_denied_tool_like_type : Text → Bool
is_denied_tool_like_type t =
    let name = to_lower (trim_space t) in
    if non_empty name
    then has_suffix name (codes "_result")
      || one_of (codes "status_update" ∷ codes "progress_update" ∷ []) name
    else false

-- looksLikeCodexToolResponseItem and looksLikeCodexToolContentBlock: they differ in the types that are
-- never tools and in the check of the ignored types.
unfoldable pub looks_like_tool : List Text → Bool → Text → Text → Text → Text → Bool
unfolding is_ignored_response_type is_denied_tool_like_type is_dynamic_tool_type
looks_like_tool never check_ignored type name tool_name raw_args =
    let t = to_lower (trim_space type) in
    if not (non_empty t)
      || (one_of never t
          || ((check_ignored && is_ignored_response_type t) || is_denied_tool_like_type t))
    then false
    else if is_dynamic_tool_type t
    then true
    else (non_empty (trim_space name) || non_empty (trim_space tool_name)) && is_raw raw_args

module _ (x : CodexDecoder) where
  unfoldable pub parse_codex_blocks : Text → List CodexBlock
  parse_codex_blocks content =
      if is_raw content
      then elim (x.unmarshal_block_list content) [
        | some blocks ↦ blocks
        | none ↦ elim (x.unmarshal_block content) [
          | some block ↦ if non_empty block.block_type then block ∷ [] else text_of content
          | none ↦ text_of content
        ]
      ]
      else []
    where
      text_of : Text → List CodexBlock
      text_of c = elim (x.unmarshal_string c) [ some t ↦ text_block t ∷ [] | none ↦ [] ]

  unfoldable pub normalize_raw_json : Text → Text
  normalize_raw_json raw =
      if is_raw raw then elim (x.unmarshal_string raw) [ some s ↦ s | none ↦ raw ] else []

  -- Values of white space are left out; no value is the empty text.
  unfoldable pub marshal_map : Map Text → Text
  marshal_map m =
      let clean = keep (λ (entry : Text × Text). non_empty (trim_space entry.1)) m in
      if any (λ entry. true) clean then x.marshal clean else []

unfoldable pub session_id_of : Decoder → CodexDecoder → Text → Text
session_id_of d x path =
    let base = trim_suffix (d.base path) (codes ".jsonl") in
    let found = x.find_session_id base in if non_empty found then to_lower found else base
