-- ===== src/OpenClaw/Tests.antt =====
-- The theorems of the OpenClaw state at a concrete store.
use crabwise.Common.{◌≤◌, [], ◌∷◌, codes, length}
use crabwise.OpenClaw.{Store, RecentChat, max_recent_chats, record_chat, match_proxy_request}
use crabwise.OpenClaw.Laws.{
  candidates, Correlates, record_chat-IsBounded, match_proxy_request-Correlates,
}

abbrev chat : RecentChat
chat = record {
  run_id = codes "run-1";
  session_key = codes "main";
  provider = codes "openai";
  model = codes "gpt";
  timestamp = 100;
}

abbrev store : Store
store = record {
  correlation_window = 50;
  sessions = [];
  runs = [];
  chats = chat ∷ [];
  matches = 0;
  ambiguous = 0;
}

record_chat-IsBounded_example :
    length
      (record_chat (codes "run-2") (codes "main") (codes "openai") (codes "gpt") 110 store).chats
    ≤ max_recent_chats
record_chat-IsBounded_example =
    record_chat-IsBounded (codes "run-2") (codes "main") (codes "openai") (codes "gpt") 110 store

match_proxy_request-Correlates_example :
    Correlates
      (candidates 50 120 (codes "openai") (codes "gpt") (chat ∷ []) [])
      store
      (match_proxy_request 120 (codes "openai") (codes "gpt") store)
match_proxy_request-Correlates_example =
    match_proxy_request-Correlates 120 (codes "openai") (codes "gpt") store
