-- ===== src/LogWatcher/Tests.antt =====
-- The theorems of the log watcher on a small file and with simple packages.
use crabwise.Common.{
  ◌≡◌, ◌≢◌, refl, sym, ◌∙◌, true, ◌++◌, lookup, insert, member, length, ℕ, ◌+◌, trim_suffix,
  has_suffix, has_prefix, Option, none, some, List, [], ◌∷◌, Text, codes, All, pos,
}
use crabwise.Common.Result.{ok, err}
use crabwise.Audit.Event.{AuditEvent, zero_event, row_of}
use crabwise.Audit.Logger.{gt_int}
use crabwise.Store.{
  Database, Sql, empty_database, insert_events, insert_loop, after_inserts, offset_loop, commit,
  insert_row, track_offset, get_file_offset,
}
use crabwise.LogWatcher.Sent.{next_offset}
use crabwise.LogWatcher.Stored.{insert_events-next_offset}
use crabwise.LogWatcher.{
  Parser, Tailed, tail_file, tail_from, start_offset, read_lines, hold_events, parsed_events,
  finish, scan, raw_lines, attach, fitting,
}
use crabwise.LogWatcher.ClaudeCode.{
  Decoder, CcRecord, CcMessage, parse_assistant, parse_content_blocks,
}
use crabwise.LogWatcher.Usage.{CountsOnce, expected_events, parse_assistant-CountsOnce}
use crabwise.LogWatcher.Codex.{source_parser}
use crabwise.LogWatcher.Codex.Shapes.{CodexDecoder}
use crabwise.LogWatcher.Codex.Numbered.{source_parser-Numbers}
use crabwise.LogWatcher.Numbered.{Numbers, position}
use crabwise.LogWatcher.Lines.{IsLine}
use crabwise.LogWatcher.Laws.{Resumes, tail_file-Resumes}

-- One event for each line; the state counts the lines.
abbrev parser : Parser ℕ
parser n line path offset = (n + 1, ok (record zero_event { action = line } ∷ []))

abbrev two_lines : List Text
two_lines = codes "ab" ∷ [] ∷ []

two_lines-AreLines : All IsLine two_lines
unfolding trim_suffix has_suffix has_prefix
two_lines-AreLines = (
  (record { inside = (refl, (refl, tt)); kept = refl; fits = refl }),
  ((record { inside = tt; kept = refl; fits = refl }), tt),
)

tail_file-Resumes_example : Resumes parser (codes "f") 0 (codes "x") (codes "cd") two_lines
tail_file-Resumes_example =
    tail_file-Resumes parser (codes "f") 0 (codes "x") (codes "cd") two_lines two_lines-AreLines

abbrev decoder : Decoder
decoder = record {
  unmarshal_record =
      λ s. ok (record { record_type = codes "assistant"; timestamp = []; cwd = []; message = s });
  unmarshal_message = λ s. ok (record {
    model = codes "m";
    content = some s;
    usage = some (record { input_tokens = pos 1; output_tokens = pos 2 });
  });
  unmarshal_blocks = λ s. some (
      record { block_type = codes "tool_use"; name = codes "Bash"; input = [] }
      ∷ record { block_type = codes "tool_use"; name = codes "Read"; input = [] }
      ∷ []);
  digest = λ s. s;
  parse_nano = λ s. none;
  parse_millis = λ s. some 5;
  now = 9;
  base = λ path. path;
  ext = λ path. [];
  classify = λ provider tool keys. record {
    category = codes "shell";
    effect = codes "execute";
    taxonomy_version = codes "v1";
    classification_source = codes "exact";
  };
  extract_arg_keys = λ input. [];
}

abbrev codex : CodexDecoder
codex = record {
  unmarshal_envelope = λ s. err (codes "no object");
  unmarshal_meta = λ s. err [];
  unmarshal_item = λ s. err [];
  unmarshal_tokens = λ s. err [];
  unmarshal_turn = λ s. err [];
  unmarshal_msg = λ s. err [];
  unmarshal_block_list = λ s. none;
  unmarshal_block = λ s. none;
  unmarshal_string = λ s. none;
  marshal = λ m. [];
  find_session_id = λ s. [];
}

abbrev record_type : Text → Option Text
record_type line = some (codes "assistant")

source_parser-Numbers_example :
    Numbers
      (position decoder (codes "{}") (codes "s.jsonl") 10)
      (source_parser decoder codex record_type [] (codes "{}") (codes "s.jsonl") 10).1
source_parser-Numbers_example =
    source_parser-Numbers decoder codex record_type [] (codes "{}") (codes "s.jsonl") 10

abbrev assistant : CcRecord
assistant = record {
  record_type = codes "assistant";
  timestamp = [];
  cwd = [];
  message = codes "[]";
}

abbrev message : CcMessage
message = record {
  model = codes "m";
  content = some (codes "[]");
  usage = some (record { input_tokens = pos 1; output_tokens = pos 2 });
}

parse_assistant-CountsOnce_example :
    CountsOnce message.usage (parse_assistant decoder assistant (codes "{}") (codes "s.jsonl") 10)
    × (length (parse_assistant decoder assistant (codes "{}") (codes "s.jsonl") 10)
        ≡ expected_events message.usage (parse_content_blocks decoder message.content))
parse_assistant-CountsOnce_example =
    parse_assistant-CountsOnce decoder assistant (codes "{}") (codes "s.jsonl") 10 message refl

abbrev grown : Text
grown = codes "a" ++ (10 ∷ [])

abbrev tailed : Tailed
tailed = (tail_file parser (codes "f") 0 (some (pos 1)) (some (codes "x" ++ grown))).1

abbrev tailed_event : AuditEvent
tailed_event = record zero_event {
  action = codes "a";
  source_file = codes "f";
  source_offset = pos 3;
}

tailed-offers : tailed.offered ≡ tailed_event ∷ []
unfolding tail_file tail_from start_offset read_lines hold_events parsed_events finish scan
    raw_lines attach fitting trim_suffix has_suffix has_prefix
tailed-offers = refl

abbrev sql : Sql
sql = record {
  begin_ok = true;
  insert_ok = λ e. true;
  offset_ok = λ path. true;
  commit_ok = true;
  last_hash_ok = true;
}

abbrev stored_database : Database
stored_database = record {
  events = row_of tailed_event ∷ [];
  file_offsets = (codes "f", pos 3) ∷ [];
  chain_anchors = [];
}

tailed-is_stored : insert_events sql tailed.offered empty_database ≡ some stored_database
unfolding insert_events insert_loop after_inserts offset_loop commit insert_row track_offset gt_int
    lookup insert member
tailed-is_stored = rw tailed-offers refl

cons-≢-nil : tailed_event ∷ [] ≢ []
cons-≢-nil h = cc

tailed-is_some : tailed.offered ≢ []
tailed-is_some h = cons-≢-nil (sym tailed-offers ∙ h)

insert_events-next_offset_example :
    get_file_offset (codes "f") stored_database ≡ next_offset (pos 1) tailed
insert_events-next_offset_example =
    insert_events-next_offset (codes "f") refl parser sql 0 (codes "x") grown empty_database
      stored_database tailed-is_some tailed-is_stored
