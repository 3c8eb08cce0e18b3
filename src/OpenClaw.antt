-- ===== src/OpenClaw.antt =====
-- internal/openclawstate/store.go: sessions, runs and recent chats, and the correlation of a proxied
-- request with a chat. Times are nanoseconds, less than 2 ^ 63 apart, so that no difference saturates.
pub mod Laws
mod Tests
use crabwise.Common.{
  ℕ, ◌+◌, ◌-◌, ◌%◌, ◌^◌, Bool, true, false, ◌&&◌, ◌||◌, Option, none, some, List, [], ◌∷◌, ◌++◌,
  Text, codes, ◌==◌, non_empty, Map, lookup_or, insert, length, drop, ltb, leb, nat_eq,
  if◌then◌else◌,
}

abbrev pub max_recent_chats : ℕ
max_recent_chats = 256

pub record SessionMeta : Type 0 where
  pub session_key : Text
  pub agent_id : Text
  pub parent_session : Text
  pub model : Text
  pub thinking_level : Text
  pub last_activity : ℕ

pub record RecentChat : Type 0 where
  pub run_id : Text
  pub session_key : Text
  pub provider : Text
  pub model : Text
  pub timestamp : ℕ

pub record MatchResult : Type 0 where
  pub agent_id : Text
  pub session_key : Text
  pub parent_session : Text
  pub run_id : Text
  pub provider : Text
  pub model : Text
  pub thinking_level : Text

pub record Store : Type 0 where
  pub correlation_window : ℕ
  pub sessions : Map SessionMeta
  pub runs : Map Text
  pub chats : List RecentChat
  pub matches : ℕ
  pub ambiguous : ℕ

pub new : ℕ → Store
new correlation_window = record {
  correlation_window = correlation_window;
  sessions = [];
  runs = [];
  chats = [];
  matches = 0;
  ambiguous = 0;
}

unfoldable pub record_session : SessionMeta → Store → Store
record_session meta s = record s { sessions = insert meta.session_key meta s.sessions }

unfoldable pub record_run : Text → Text → Store → Store
record_run run_id session_key s = record s { runs = insert run_id session_key s.runs }

unfoldable pub record_chat : Text → Text → Text → Text → ℕ → Store → Store
record_chat run_id session_key provider model ts s =
    let chat : RecentChat = record {
      run_id = run_id;
      session_key = session_key;
      provider = provider;
      model = model;
      timestamp = ts;
    } in
    let chats = s.chats ++ chat ∷ [] in
    record s {
      runs = if non_empty run_id then insert run_id session_key s.runs else s.runs;
      chats =
          if ltb max_recent_chats (length chats)
          then drop (length chats - max_recent_chats) chats
          else chats;
    }

-- The distance of two times.
unfoldable pub abs_duration : ℕ → ℕ → ℕ
abs_duration a b = (a - b) + (b - a)

unfoldable pub score_of : Text → Text → RecentChat → ℕ
score_of provider model chat =
    (if non_empty provider && (chat.provider == provider) then 2 else 0)
    + (if non_empty model && (chat.model == model) then 1 else 0)

pub record Best : Type 0 where
  pub chat : RecentChat
  pub score : ℕ
  pub delta : ℕ

-- The loop over the chats: the best so far and whether it is tied. No best is the start, with the
-- least score and the greatest distance.
pub record Scan : Type 0 where
  pub best : Option Best
  pub tied : Bool

unfoldable pub scan_candidate : Best → Scan → Scan
scan_candidate new s = elim s.best [
  | none ↦ record { best = some new; tied = false }
  | some old ↦
      if ltb old.score new.score || (nat_eq new.score old.score && ltb new.delta old.delta)
      then record { best = some new; tied = false }
      else if nat_eq new.score old.score && nat_eq new.delta old.delta
      then record s { tied = true }
      else s
]

unfoldable pub scan_chats : ℕ → ℕ → Text → Text → List RecentChat → Scan → Scan
unfolding scan_candidate abs_duration score_of
scan_chats window ts provider model [] s = s
scan_chats window ts provider model (chat ∷ chats) s =
    let delta = abs_duration ts chat.timestamp in
    let score = score_of provider model chat in
    if ltb window delta
    then scan_chats window ts provider model chats s
    else scan_chats window ts provider model chats
        (scan_candidate (record { chat = chat; score = score; delta = delta }) s)

unfoldable pub first_non_empty : List Text → Text
first_non_empty [] = []
first_non_empty (v ∷ vs) = if non_empty v then v else first_non_empty vs

abbrev pub zero_session : SessionMeta
zero_session = record {
  session_key = [];
  agent_id = [];
  parent_session = [];
  model = [];
  thinking_level = [];
  last_activity = 0;
}

-- The result that a chat gives, with its session's data.
unfoldable pub result_of : RecentChat → SessionMeta → MatchResult
unfolding first_non_empty
result_of chat meta = record {
  agent_id = codes "openclaw";
  session_key = chat.session_key;
  parent_session = meta.parent_session;
  run_id = chat.run_id;
  provider = chat.provider;
  model = first_non_empty (chat.model ∷ meta.model ∷ []);
  thinking_level = meta.thinking_level;
}

unfoldable pub conclude : Scan → Store → Option MatchResult × Store
unfolding result_of
conclude scan s = elim scan.best [
  | none ↦ (none, s)
  | some b ↦ if scan.tied then (none, record s { ambiguous = (s.ambiguous + 1) % 2 ^ 64 }) else (
    some (result_of b.chat (lookup_or b.chat.session_key s.sessions zero_session)),
    record s { matches = (s.matches + 1) % 2 ^ 64 },
  )
]

unfoldable pub match_proxy_request : ℕ → Text → Text → Store → Option MatchResult × Store
unfolding scan_chats conclude
match_proxy_request ts provider model s =
    conclude
      (scan_chats s.correlation_window ts provider model s.chats
        (record { best = none; tied = false }))
      s

pub record Stats : Type 0 where
  pub session_count : ℕ
  pub run_count : ℕ
  pub recent_chats : ℕ
  pub matches : ℕ
  pub ambiguous : ℕ

pub stats : Store → Stats
stats s = record {
  session_count = length s.sessions;
  run_count = length s.runs;
  recent_chats = length s.chats;
  matches = s.matches;
  ambiguous = s.ambiguous;
}
