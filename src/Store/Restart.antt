-- ===== src/Store/Restart.antt =====
-- What the logger starts from when it is opened over a table that an earlier run has written.
use crabwise.Common.{
  ℕ, ◌≡◌, refl, sym, ap, subst, ◌∙◌, List, [], ◌∷◌, Text, append-nil, ◌++◌, true, false, Bool,
  if◌then◌else◌, Option, none, some, sort_by, Ascends, sort_by-Ascends,
}
use crabwise.Queue.{Queue}
use crabwise.Audit.Event.{AuditEvent}
use crabwise.Audit.Logger.{Services, EventStore, Logger, Item, new_logger}
use crabwise.Audit.Logger.Chain.{genesis, last_hash, Chained, DistinctIds, IsChained}
use crabwise.Store.{Sql, Database, last_hash_or, get_last_event_hash, sqlite_store}
use crabwise.Store.Laws.{sqlite_store-StoreLaws}

last_hash_or-last_hash :
    (hash : Text) (es : List AuditEvent) → last_hash_or hash es ≡ last_hash hash es
unfolding last_hash_or
last_hash_or-last_hash hash [] = refl
last_hash_or-last_hash hash (e ∷ es) = last_hash_or-last_hash e.event_hash es

-- A logger that was opened is chained; otherwise the query of the last hash failed.
abbrev pub Opens :
    (services : Services)
    → (sql : Sql) → Option (Logger services (sqlite_store services.format_time sql))
    → Type 0
Opens services sql none = sql.last_hash_ok ≡ false
Opens services sql (some l) =
    (sql.last_hash_ok ≡ true)
    × IsChained services (sqlite_store services.format_time sql)
        (sqlite_store-StoreLaws sql services.format_time) l

-- A logger opened over a table that holds one hash chain from genesis, with distinct ids and with
-- timestamps that never descend as text, starts in a chained state: it goes on with the chain that
-- the table ends in, whatever the queue and the batch size. It is not opened exactly if the query of
-- the last hash fails.
pub new_logger-IsChained :
    (services : Services) (sql : Sql) (q : Queue Item) (db : Database) (batch_size : ℕ)
    → Chained services genesis db.events
    → DistinctIds db.events
    → Ascends (λ (e : AuditEvent). services.format_time e.timestamp) db.events
    → Opens services sql
        (new_logger services (sqlite_store services.format_time sql) q db batch_size)
unfolding new_logger get_last_event_hash
new_logger-IsChained services sql q db batch_size chained distinct ascends =
    go sql.last_hash_ok refl
  where
    store : EventStore
    store = sqlite_store services.format_time sql

    whole : db.events ≡ db.events ++ []
    whole = sym (append-nil db.events)

    tip :
        last_hash_or genesis (sort_by (λ e. services.format_time e.timestamp) db.events)
        ≡ last_hash genesis (db.events ++ [])
    tip =
        ap (last_hash_or genesis)
          (sort_by-Ascends (λ (e : AuditEvent). services.format_time e.timestamp) db.events ascends)
        ∙ last_hash_or-last_hash genesis db.events
        ∙ ap (last_hash genesis) whole

    opened : Text → Logger services store
    opened prev_hash = record {
      q = q;
      db = db;
      batch_size = batch_size;
      prev_hash = prev_hash;
      last_epoch = [];
      batch = [];
      subscribers = [];
    }

    go :
        (answered : Bool)
        → sql.last_hash_ok ≡ answered
        → Opens services sql
            (elim (if answered
              then some
                  (last_hash_or genesis (sort_by (λ e. services.format_time e.timestamp) db.events))
              else none) [ none ↦ none | some prev_hash ↦ some (opened prev_hash) ])
    go false failed = failed
    go true answered = (
      answered,
      record {
        chained = subst (Chained services genesis) whole chained;
        tip = tip;
        distinct = subst DistinctIds whole distinct;
      },
    )
