-- ===== src/Store.antt =====
-- internal/store/sqlite.go: the event store. A table is the list of its rows in the order of the
-- row ids, and a statement does what its SQL says; whether a statement fails is an argument.
pub mod Laws
pub mod Duplicates
pub mod Restart
mod Tests
use crabwise.Common.{
  sort_by, ℕ, ◌≡◌, Bool, true, false, not, ◌&&◌, Option, none, some, List, [], ◌∷◌, ◌++◌, map, Text,
  codes, ◌==◌, non_empty, ℤ, pos, Map, lookup, insert, lookup_or, has, member, if◌then◌else◌,
  nat_eq,
}
use crabwise.Audit.Event.{AuditEvent, row_of}
use crabwise.Audit.Logger.{EventStore, gt_int}

pub record Anchor : Type 0 where
  pub event_id : Text
  pub event_hash : Text

pub record Database : Type 0 where
  pub events : List AuditEvent
  pub file_offsets : Map ℤ
  pub chain_anchors : Map Anchor

abbrev pub empty_database : Database
empty_database = record { events = []; file_offsets = []; chain_anchors = [] }

-- Which statements succeed: the insert of an event, the update of an offset, the commit, the
-- query of the last hash.
pub record Sql : Type 0 where
  pub begin_ok : Bool
  pub insert_ok : AuditEvent → Bool
  pub offset_ok : Text → Bool
  pub commit_ok : Bool
  pub last_hash_ok : Bool

abbrev ids : List AuditEvent → List Text
ids = map (λ e. e.id)

-- INSERT OR IGNORE INTO events: the primary key is the id.
unfoldable pub insert_row : AuditEvent → List AuditEvent → List AuditEvent
insert_row e rows = if member e.id (ids rows) then rows else rows ++ row_of e ∷ []

-- The highest offset of each source file.
unfoldable pub track_offset : AuditEvent → Map ℤ → Map ℤ
unfolding gt_int
track_offset e offsets =
    if non_empty e.source_file && gt_int e.source_offset (lookup_or e.source_file offsets (pos 0))
    then insert e.source_file e.source_offset offsets
    else offsets

-- What the transaction has written so far.
pub record Pending : Type 0 where
  pub rows : List AuditEvent
  pub offsets : Map ℤ

module _ (sql : Sql) where
  unfoldable pub insert_loop : List AuditEvent → Pending → Option Pending
  unfolding insert_row track_offset
  insert_loop [] p = some p
  insert_loop (e ∷ es) p =
      let rest =
        insert_loop es
          (record { rows = insert_row e p.rows; offsets = track_offset e p.offsets }) in
      if sql.insert_ok e then rest else none

  -- INSERT INTO file_offsets … ON CONFLICT(file_path) DO UPDATE
  unfoldable pub offset_loop : Map ℤ → Map ℤ → Option (Map ℤ)
  offset_loop [] table = some table
  offset_loop ((path, offset) ∷ rest) table =
      let next = offset_loop rest (insert path offset table) in
      if sql.offset_ok path then next else none

  unfoldable pub commit : Database → Pending → Option (Map ℤ) → Option Database
  commit db p none = none
  commit db p (some table) =
      if sql.commit_ok then some (record db { events = p.rows; file_offsets = table }) else none

  unfoldable pub after_inserts : Database → Option Pending → Option Database
  unfolding offset_loop commit
  after_inserts db none = none
  after_inserts db (some p) = commit db p (offset_loop p.offsets db.file_offsets)

  -- `none` is an error, after which the deferred rollback leaves the database as it was.
  unfoldable pub insert_events : List AuditEvent → Database → Option Database
  unfolding insert_loop after_inserts
  insert_events [] db = some db
  insert_events (e ∷ es) db =
      if sql.begin_ok
      then after_inserts db (insert_loop (e ∷ es) (record { rows = db.events; offsets = [] }))
      else none

unfoldable pub get_file_offset : Text → Database → ℤ
get_file_offset path db = lookup_or path db.file_offsets (pos 0)

pub set_file_offset : Text → ℤ → Database → Database
set_file_offset path offset db = record db { file_offsets = insert path offset db.file_offsets }

-- INSERT OR IGNORE INTO chain_anchors: the primary key is the epoch.
unfoldable pub insert_chain_anchor : Text → Text → Text → Database → Database
insert_chain_anchor epoch event_id event_hash db =
    if has epoch db.chain_anchors then db else record db {
      chain_anchors =
          insert epoch (record { event_id = event_id; event_hash = event_hash }) db.chain_anchors;
    }

unfoldable pub last_hash_or : Text → List AuditEvent → Text
last_hash_or hash [] = hash
last_hash_or hash (e ∷ es) = last_hash_or e.event_hash es

-- SELECT event_hash FROM events ORDER BY timestamp DESC, rowid DESC LIMIT 1; the column holds the
-- time as formatted text.
unfoldable pub get_last_event_hash : Sql → (ℕ → Text) → Database → Option Text
unfolding last_hash_or
get_last_event_hash sql format_time db =
    if sql.last_hash_ok
    then some (last_hash_or (codes "genesis") (sort_by (λ e. format_time e.timestamp) db.events))
    else none

-- The store as the logger sees it.
abbrev pub sqlite_store : (ℕ → Text) → Sql → EventStore
sqlite_store format_time sql = record {
  Db = Database;
  insert_events = insert_events sql;
  get_last_event_hash = get_last_event_hash sql format_time;
  insert_chain_anchor = insert_chain_anchor;
}
