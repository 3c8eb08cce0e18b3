-- ===== src/Proxy/Stream.antt =====
-- internal/adapter/proxy/streaming.go: the buffering of an event stream, from the lines that arrive.
pub mod Gathered
pub mod Laws
use crabwise.Common.{
  ℕ, ◌+◌, ◌*◌, Bool, true, false, ◌||◌, Option, none, some, List, [], ◌∷◌, ◌++◌, foldl, map, Text,
  codes, ◌==◌, non_empty, trim_space, trim_prefix, has_prefix, decimal, length, ltb, ℤ, pos, negsuc,
  nat_eq, if◌then◌else◌,
}
use crabwise.Common.Result.{Result, ok, err}
use crabwise.Audit.Logger.{gt_int}
use crabwise.Proxy.Provider.{
  ToolTargets, ToolUseBlock, ToolCallDelta, StreamEvent, Chunk, line, idle, failed,
}

abbrev pub default_stream_max_bytes : ℕ
default_stream_max_bytes = 10 * 1024 * 1024

pub record StreamTelemetry : Type 0 where
  pub model : Text
  pub finish_reason : Text
  pub input_tokens : ℤ
  pub output_tokens : ℤ
  pub has_usage : Bool
  pub first_token_at : ℕ

abbrev pub no_telemetry : StreamTelemetry
no_telemetry = record {
  model = [];
  finish_reason = [];
  input_tokens = pos 0;
  output_tokens = pos 0;
  has_usage = false;
  first_token_at = 0;
}

-- `tcAcc`, with its index.
pub record Accumulator : Type 0 where
  pub index : ℤ
  pub id : Text
  pub name : Text
  pub args : Text

unfoldable pub int_eq : ℤ → ℤ → Bool
int_eq (pos m) (pos n) = nat_eq m n
int_eq (negsuc m) (negsuc n) = nat_eq m n
int_eq _ _ = false

unfoldable pub parse_sse_data : Text → Text
parse_sse_data bytes =
    let s = trim_space bytes in
    if non_empty s
    then (if has_prefix s (codes ":")
        then []
        else if has_prefix s (codes "data:")
        then trim_space (trim_prefix s (codes "data:"))
        else [])
    else []

unfoldable pub parse_sse_event_type : Text → Text
parse_sse_event_type bytes =
    let s = trim_space bytes in
    if has_prefix s (codes "event:") then trim_space (trim_prefix s (codes "event:")) else []

unfoldable pub add_delta : ToolCallDelta → Accumulator → Accumulator
add_delta d acc = record acc {
  id = if non_empty d.id then d.id else acc.id;
  name = if non_empty d.name then d.name else acc.name;
  args = acc.args ++ d.args_delta;
}

unfoldable pub accumulate : List Accumulator → ToolCallDelta → List Accumulator
unfolding add_delta int_eq
accumulate [] d = add_delta d (record { index = d.index; id = []; name = []; args = [] }) ∷ []
accumulate (acc ∷ accs) d =
    if int_eq acc.index d.index then add_delta d acc ∷ accs else acc ∷ accumulate accs d

unfoldable pub insert_index : Accumulator → List Accumulator → List Accumulator
unfolding gt_int
insert_index acc [] = acc ∷ []
insert_index acc (x ∷ xs) =
    if gt_int acc.index x.index then x ∷ insert_index acc xs else acc ∷ x ∷ xs

unfoldable pub sort_indices : List Accumulator → List Accumulator
unfolding insert_index
sort_indices [] = []
sort_indices (acc ∷ accs) = insert_index acc (sort_indices accs)

unfoldable pub note_event : StreamEvent → StreamTelemetry → StreamTelemetry
note_event event t = record t {
  model = if non_empty event.model then event.model else t.model;
  finish_reason = if event.has_finish then event.finish_reason else t.finish_reason;
  input_tokens = if event.has_usage then event.input_tokens else t.input_tokens;
  output_tokens = if event.has_usage then event.output_tokens else t.output_tokens;
  has_usage = t.has_usage || event.has_usage;
}

-- The variables of the loop.
pub record StreamState : Type 0 where
  pub body : Text
  pub telemetry : StreamTelemetry
  pub accumulators : List Accumulator

abbrev pub stream_start : StreamState
stream_start = record { body = []; telemetry = no_telemetry; accumulators = [] }

pub record BufferedResult : Type 0 where
  pub body : Text
  pub telemetry : StreamTelemetry
  pub tool_blocks : List ToolUseBlock

-- Lines that carry no payload: event names, blank lines, comments and the end mark.
abbrev pub payload_of : Text → Option Text
payload_of bytes =
    if non_empty (parse_sse_event_type bytes)
    then none
    else if non_empty (parse_sse_data bytes)
    then (if parse_sse_data bytes == codes "[DONE]" then none else some (parse_sse_data bytes))
    else none

unfoldable pub apply_event : StreamEvent → StreamState → StreamState
unfolding note_event accumulate
apply_event event s = record s {
  telemetry = note_event event s.telemetry;
  accumulators = foldl accumulate s.accumulators event.tool_call_deltas;
}

stamp : ℕ → StreamState → StreamState
stamp now s = record s {
  telemetry =
      if nat_eq s.telemetry.first_token_at 0
      then record s.telemetry { first_token_at = now }
      else s.telemetry;
}

-- `now` is the clock at the first payload.
module _ (parse : Text → Result Text StreamEvent) (now max_bytes : ℕ) where
  -- One line, after it is appended to the body.
  unfoldable pub take_line : Text → StreamState → Result Text StreamState
  unfolding apply_event stamp
  take_line bytes s = elim (payload_of bytes) [
    | none ↦ ok s
    | some payload ↦ elim (parse payload) [
      | ok event ↦ ok (apply_event event (stamp now s))
      | err e ↦ err (codes "enforcement_error: failed to parse stream event: " ++ e)
    ]
  ]

  unfoldable pub buffer_loop : List Chunk → StreamState → Result Text StreamState
  unfolding take_line
  buffer_loop [] s = ok s
  buffer_loop (idle ∷ chunks) s = err (codes "stream idle timeout")
  buffer_loop (failed e ∷ chunks) s = err e
  buffer_loop (line bytes ∷ chunks) s =
      if ltb max_bytes (length s.body + length bytes)
      then err (codes "stream buffer exceeded " ++ (decimal max_bytes ++ codes " bytes"))
      else elim (take_line bytes (record s { body = s.body ++ bytes })) [
        | err e ↦ err e
        | ok s' ↦ buffer_loop chunks s'
      ]

-- `valid` is json.Valid, `quote` json.Marshal of a string; `parse_targets` reads the JSON arguments.
module _ (valid : Text → Bool) (quote : Text → Text)
    (parse_targets : Text → Text → ToolTargets) where
  unfoldable pub raw_input : Text → Text
  raw_input args = if valid args then args else codes "{\"_raw_args\":" ++ (quote args ++ codes "}")

  unfoldable pub tool_block : Accumulator → ToolUseBlock
  unfolding raw_input
  tool_block acc = record {
    id = acc.id;
    tool_name = acc.name;
    tool_input = raw_input acc.args;
    targets = parse_targets acc.name (raw_input acc.args);
  }

  unfoldable pub finalize : StreamState → BufferedResult
  unfolding sort_indices tool_block
  finalize s = record {
    body = s.body;
    telemetry = s.telemetry;
    tool_blocks = map tool_block (sort_indices s.accumulators);
  }

  unfoldable pub buffer_sse_stream :
      (Text → Result Text StreamEvent) → ℕ → ℕ → List Chunk → Result Text BufferedResult
  unfolding buffer_loop finalize
  buffer_sse_stream parse now max_bytes chunks =
      elim (buffer_loop parse now max_bytes chunks stream_start) [
        | ok s ↦ ok (finalize s)
        | err e ↦ err e
      ]
