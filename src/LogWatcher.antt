-- ===== src/LogWatcher.antt =====
-- internal/adapter/logwatcher/logwatcher.go and parser_router.go: tailing the log files of the agents.
-- The scanner is that of bufio with its line split and the buffer that tailFile sets.
pub mod ClaudeCode
pub mod Codex
pub mod Lines
pub mod Sent
pub mod Numbered
pub mod Usage
pub mod Stored
pub mod Laws
mod Tests
use crabwise.Common.{
  ℕ, suc, ◌+◌, ◌*◌, Bool, true, false, ◌||◌, Option, none, some, List, [], ◌∷◌, ◌++◌, map, Text,
  codes, ◌==◌, non_empty, trim_suffix, has_suffix, contains, any, length, drop, ltb, nat_eq, ℤ, pos,
  negsuc, if◌then◌else◌,
}
use crabwise.Common.Result.{Result, ok, err}
use crabwise.Audit.Event.{AuditEvent}

abbrev pub max_line : ℕ
max_line = 1024 * 1024

unfoldable pub attach : ℕ → List Text → List Text
attach c [] = (c ∷ []) ∷ []
attach c (l ∷ ls) = (c ∷ l) ∷ ls

-- What lies between the newlines; after the last one only what is not empty.
unfoldable pub raw_lines : Text → List Text
unfolding attach
raw_lines [] = []
raw_lines (c ∷ s) = let rest = raw_lines s in if nat_eq c 10 then [] ∷ rest else attach c rest

-- The calls of Scan that succeed: a line that does not fit into the buffer ends the scan.
unfoldable pub fitting : List Text → List Text
fitting [] = []
fitting (l ∷ ls) =
    let rest = fitting ls in if ltb (length l) max_line then trim_suffix l (13 ∷ []) ∷ rest else []

unfoldable pub scan : Text → List Text
unfolding raw_lines fitting
scan s = fitting (raw_lines s)

-- The offset that the reading starts at, `none` if it is negative.
unfoldable pub start_offset : ℤ → ℕ → Option ℕ
start_offset (pos n) size = some (if ltb size n then 0 else n)
start_offset (negsuc n) size = none

-- What tailFile does: the events it sends, in order, each without waiting for room in the queue, and
-- the offset that it stores itself.
pub record Tailed : Type 0 where
  pub offered : List AuditEvent
  pub stored : Option ℤ

abbrev pub untouched : Tailed
untouched = record { offered = []; stored = none }

abbrev pub held : Option AuditEvent → List AuditEvent
held none = []
held (some e) = e ∷ []

-- The variables `newOffset` and `lastEvt`, and what is sent until the loop ends.
pub record Progress : Type 0 where
  pub sent : List AuditEvent
  pub new_offset : ℕ
  pub last : Option AuditEvent

abbrev pub tagged : Text → ℕ → AuditEvent → AuditEvent
tagged path offset e = record e { source_file = path; source_offset = pos offset }

-- The loop over the events of a line.
unfoldable pub hold_events :
    Text → ℕ → List AuditEvent → Option AuditEvent → List AuditEvent × Option AuditEvent
hold_events path offset [] last = ([], last)
hold_events path offset (e ∷ es) last =
    let (sent, final) = hold_events path offset es (some (tagged path offset e)) in
    (held last ++ sent, final)

unfoldable pub finish : ℕ → Progress → Tailed
finish offset p = elim p.last [
  | some e ↦ record {
    offered = p.sent ++ (record e { source_offset = pos p.new_offset } ∷ []);
    stored = none;
  }
  | none ↦ record {
    offered = p.sent;
    stored = if ltb offset p.new_offset then some (pos p.new_offset) else none;
  }
]

-- A parser of lines is given its state, a line, the path and the offset of the line.
abbrev pub Parser : Type 0 → Type 0
Parser S = S → Text → Text → ℕ → S × Result Text (List AuditEvent)

module _ {S : Type 0} (parse : Parser S) (path : Text) where
  -- `continue` on an error: no event is held.
  unfoldable pub parsed_events : S → Text → ℕ → S × List AuditEvent
  parsed_events s l offset =
      let (next, result) = parse s l path offset in
      (next, elim result [ ok events ↦ events | err e ↦ [] ])

  unfoldable pub read_lines : S → List Text → ℕ → Option AuditEvent → S × Progress
  unfolding hold_events parsed_events
  read_lines s [] offset last = (s, record { sent = []; new_offset = offset; last = last })
  read_lines s (l ∷ ls) offset last =
      let next = offset + length l + 1 in
      let (s', events) = parsed_events s l offset in
      let (sent, kept) = hold_events path next events last in
      let (final, p) = read_lines s' ls next kept in (final, record p { sent = sent ++ p.sent })

  unfoldable pub tail_from : S → Text → Option ℕ → S × Tailed
  unfolding scan read_lines finish
  tail_from s contents none = (s, untouched)
  tail_from s contents (some offset) =
      let (final, p) = read_lines s (scan (drop offset contents)) offset none in
      (final, finish offset p)

  -- `stored_offset` is what GetFileOffset gives and `contents` the file, none on an error.
  unfoldable pub tail_file : S → Option ℤ → Option Text → S × Tailed
  unfolding tail_from start_offset
  tail_file s (some stored_offset) (some contents) =
      tail_from s contents (start_offset stored_offset (length contents))
  tail_file s _ _ = (s, untouched)

-- `ParseLineForSource`; `record_type` is the member "type" of a line that is an object.
slashes : Text → Text
slashes [] = []
slashes (c ∷ s) = (if nat_eq c 92 then 47 else c) ∷ slashes s

unfoldable pub is_codex_source : Text → Bool
unfolding slashes
is_codex_source path =
    contains (slashes path) (codes "/.codex/") || contains (slashes path) (codes "/codex/sessions/")

abbrev codex_record_types : List Text
codex_record_types =
    codes "session_meta"
    ∷ codes "response_item"
    ∷ codes "event_msg"
    ∷ codes "turn_context"
    ∷ codes "token_count"
    ∷ []

module _ (record_type : Text → Option Text) where
  unfoldable pub looks_like_codex_line : Text → Bool
  looks_like_codex_line line =
      if non_empty line
      then elim (record_type line) [
        | none ↦ false
        | some t ↦ any (λ name. t == name) codex_record_types
      ]
      else false

  unfoldable pub parse_line_for_source : {S : Type 0} → Parser S → Parser S → Parser S
  unfolding is_codex_source looks_like_codex_line
  parse_line_for_source parse_codex_line parse_line s line path offset =
      if is_codex_source path || looks_like_codex_line line
      then parse_codex_line s line path offset
      else parse_line s line path offset
