-- ===== src/Consensus/Storage.antt =====
-- crates/ocf-consensus/src/storage.rs and types.rs: the data of the Raft storage, and the log. The
-- types of the Raft library are arguments, as are the encoding of a snapshot and the text of its id.
pub mod Log
use open_compute_fabric_rs.Prelude.{
  ℕ, ◌+◌, ◌%◌, ◌^◌, String, Bool, true, false, List, [], ◌∷◌, ◌++◌, Option, none, some, map, filter,
  ltb, leb, nat_eq, nat_beq, string_eq, if◌then◌else◌,
}
use open_compute_fabric_rs.Prelude.Assoc.{Assoc, lookup, insert, remove, keys}
use open_compute_fabric_rs.Prelude.Sets.{add}
use open_compute_fabric_rs.Core.Error.{Result, ok, err, ◌>>=◌}
use open_compute_fabric_rs.Store.{Bytes, StateStore}

-- What the storage reads of the Raft library's types.
pub record Raft : Type 1 where
  pub LogId : Type 0
  pub index : LogId → ℕ
  pub less : LogId → LogId → Bool
  pub Vote : Type 0
  pub Membership : Type 0
  pub no_membership : Membership

pub data KvCommand : Type 0 where
  put : (collection key : String) → Bytes → KvCommand
  delete : (collection key : String) → KvCommand

pub record KvResponse : Type 0 where
  pub applied : Bool

pub data EntryPayload (r : Raft) : Type 0 where
  blank : EntryPayload r
  normal : KvCommand → EntryPayload r
  membership : r.Membership → EntryPayload r

pub record Entry (r : Raft) : Type 0 where
  pub log_id : r.LogId
  pub payload : EntryPayload r

abbrev pub StoredMembership : Raft → Type 0
StoredMembership r = Option r.LogId × r.Membership

pub record SnapshotPayload (r : Raft) : Type 0 where
  pub last_applied : Option r.LogId
  pub last_membership : StoredMembership r
  pub contents : Assoc String (Assoc String Bytes)

pub record SnapshotMeta (r : Raft) : Type 0 where
  pub last_log_id : Option r.LogId
  pub last_membership : StoredMembership r
  pub snapshot_id : String

pub record StoredSnapshot (r : Raft) : Type 0 where
  pub meta : SnapshotMeta r
  pub bytes : Bytes

pub record Inner (r : Raft) : Type 0 where
  pub log : Assoc ℕ (Entry r)
  pub vote : Option r.Vote
  pub committed : Option r.LogId
  pub last_purged : Option r.LogId
  pub sm_last_applied : Option r.LogId
  pub sm_last_membership : StoredMembership r
  pub sm_collections : List String
  pub current_snapshot : Option (StoredSnapshot r)
  pub snapshot_idx : ℕ

-- Serializing and compressing a snapshot, and back.
pub record Codec (r : Raft) : Type 0 where
  pub encode : SnapshotPayload r → Result Bytes
  pub decode : Bytes → Result (SnapshotPayload r)
  pub snapshot_id : Option r.LogId → ℕ → String

module _ (r : Raft) where
  -- `last_purged < Some(log_id)`
  abbrev pub raised : Option r.LogId → r.LogId → Option r.LogId
  raised none log_id = some log_id
  raised (some last) log_id = if r.less last log_id then some log_id else some last

  -- The shared part of a fresh pair; the store is the one given.
  abbrev pub new_storage : Inner r
  new_storage = record {
    log = [];
    vote = none;
    committed = none;
    last_purged = none;
    sm_last_applied = none;
    sm_last_membership = (none, r.no_membership);
    sm_collections = [];
    current_snapshot = none;
    snapshot_idx = 0;
  }

module _ {r : Raft} where
  -- The log is in key order: `insert` of a `BTreeMap`.
  insert_entry : ℕ → Entry r → Assoc ℕ (Entry r) → Assoc ℕ (Entry r)
  insert_entry k e [] = (k, e) ∷ []
  insert_entry k e ((j, d) ∷ log) =
      let rest = insert_entry k e log in
      if ltb k j then (k, e) ∷ (j, d) ∷ log else if nat_beq k j then (k, e) ∷ log else (j, d) ∷ rest

  append_entries : Assoc ℕ (Entry r) → List (Entry r) → Assoc ℕ (Entry r)
  append_entries log [] = log
  append_entries log (e ∷ entries) = append_entries (insert_entry (r.index e.log_id) e log) entries

  unfoldable pub append : Inner r → List (Entry r) → Inner r
  unfolding append_entries insert_entry
  append inner entries = record inner { log = append_entries inner.log entries }

  -- The loop that removes the collected keys.
  remove_keys : Assoc ℕ (Entry r) → List ℕ → Assoc ℕ (Entry r)
  remove_keys log [] = log
  remove_keys log (k ∷ ks) = remove_keys (remove k log) ks

  unfoldable pub truncate : Inner r → r.LogId → Inner r
  unfolding remove_keys
  truncate inner log_id = record inner {
    log = remove_keys inner.log (filter (λ k. leb (r.index log_id) k) (keys inner.log));
  }

  unfoldable pub purge : Inner r → r.LogId → Inner r
  unfolding remove_keys
  purge inner log_id = record inner {
    log = remove_keys inner.log (filter (λ k. leb k (r.index log_id)) (keys inner.log));
    last_purged = raised r inner.last_purged log_id;
  }

  -- The entries whose index lies in a range, in order.
  unfoldable pub try_get_log_entries : Inner r → (ℕ → Bool) → List (Entry r)
  try_get_log_entries inner range = map (λ e. e.1) (filter (λ e. range e.0) inner.log)

  -- `next_back` of the log, whose first entry is given.
  last_from : Entry r → Assoc ℕ (Entry r) → Entry r
  last_from e [] = e
  last_from e ((k, d) ∷ log) = last_from d log

  last_entry : Assoc ℕ (Entry r) → Option (Entry r)
  unfolding last_from
  last_entry [] = none
  last_entry ((k, e) ∷ log) = some (last_from e log)

  -- The last purged and the last log id.
  unfoldable pub get_log_state : Inner r → Option r.LogId × Option r.LogId
  unfolding last_entry
  get_log_state inner = (
    inner.last_purged,
    elim (last_entry inner.log) [ none ↦ inner.last_purged | some e ↦ some e.log_id ],
  )

  abbrev pub save_vote : Inner r → r.Vote → Inner r
  save_vote inner vote = record inner { vote = some vote }

  abbrev pub save_committed : Inner r → Option r.LogId → Inner r
  save_committed inner committed = record inner { committed = committed }
