-- ===== src/Consensus/StateMachine.antt =====
-- crates/ocf-consensus/src/storage.rs: the state machine that applies committed entries into a
-- `StateStore`, and its snapshots. An error of the store is fatal to the Raft node: no state is read
-- after it.
pub mod Restore
pub mod Apply
pub mod Replication
use open_compute_fabric_rs.Prelude.{
  ℕ, ◌+◌, ◌%◌, ◌^◌, String, Bool, true, false, List, [], ◌∷◌, ◌++◌, Option, none, some, map, filter,
  ltb, leb, nat_eq, nat_beq, string_eq, if◌then◌else◌,
}
use open_compute_fabric_rs.Prelude.Assoc.{Assoc, lookup, insert, remove, keys}
use open_compute_fabric_rs.Prelude.Sets.{add}
use open_compute_fabric_rs.Core.Error.{Result, ok, err, ◌>>=◌}
use open_compute_fabric_rs.Store.{Bytes, StateStore}
use open_compute_fabric_rs.Consensus.Storage.{
  Codec, Entry, EntryPayload, Inner, KvCommand, KvResponse, Raft, SnapshotPayload, StoredSnapshot,
}

-- The state machine writes through to the store.
pub record StateMachineStore (db : StateStore) (r : Raft) : Type 0 where
  pub inner : Inner r
  pub store : db.State

module _ (db : StateStore) where
  -- The loop over the collections, with the map so far.
  pub build_contents :
      db.State
      → Assoc String (Assoc String Bytes)
      → List String
      → Result (Assoc String (Assoc String Bytes))
  build_contents s contents [] = ok contents
  build_contents s contents (collection ∷ collections) = do
    entries ← db.list s collection
    build_contents s (insert collection entries contents) collections

  delete_entries : db.State → String → Assoc String Bytes → Result db.State
  delete_entries s collection [] = ok s
  delete_entries s collection ((key, value) ∷ entries) = do
    s' ← db.delete s collection key
    delete_entries s' collection entries

  pub clear_collections : db.State → List String → Result db.State
  clear_collections s [] = ok s
  clear_collections s (collection ∷ known) = do
    existing ← db.list s collection
    s' ← delete_entries s collection existing
    clear_collections s' known

  put_entries : db.State → String → Assoc String Bytes → Result db.State
  put_entries s collection [] = ok s
  put_entries s collection ((key, value) ∷ entries) = do
    s' ← db.put s collection key value
    put_entries s' collection entries

  pub load_contents :
      db.State → List String → Assoc String (Assoc String Bytes) → Result (db.State × List String)
  load_contents s collections [] = ok (s, collections)
  load_contents s collections ((collection, kv) ∷ contents) = do
    s' ← put_entries s collection kv
    load_contents s' (add collection collections) contents

module _ {db : StateStore} {r : Raft} where
  -- The machine after a write to a collection.
  abbrev pub written : StateMachineStore db r → String → db.State → StateMachineStore db r
  written m collection s = record {
    inner = record m.inner { sm_collections = add collection m.inner.sm_collections };
    store = s;
  }

  unfoldable pub apply_command :
      StateMachineStore db r → KvCommand → Result (StateMachineStore db r)
  apply_command m (KvCommand.put collection key value) = do
    s ← db.put m.store collection key value
    ok (written m collection s)
  apply_command m (KvCommand.delete collection key) = do
    s ← db.delete m.store collection key
    ok (written m collection s)

  abbrev pub applying : StateMachineStore db r → r.LogId → StateMachineStore db r
  applying m log_id = record m { inner = record m.inner { sm_last_applied = some log_id } }

  abbrev pub configured : StateMachineStore db r → r.LogId → r.Membership → StateMachineStore db r
  configured m log_id config = record m {
    inner = record m.inner {
      sm_last_applied = some log_id;
      sm_last_membership = (some log_id, config);
    };
  }

  unfoldable pub apply_payload :
      StateMachineStore db r
      → r.LogId
      → EntryPayload r
      → Result (StateMachineStore db r × KvResponse)
  apply_payload m log_id EntryPayload.blank = ok (applying m log_id, record { applied = false })
  apply_payload m log_id (EntryPayload.normal cmd) = do
    m' ← apply_command (applying m log_id) cmd
    ok (m', record { applied = true })
  apply_payload m log_id (EntryPayload.membership config) =
      ok (configured m log_id config, record { applied = false })

  unfoldable pub apply :
      StateMachineStore db r → List (Entry r) → Result (StateMachineStore db r × List KvResponse)
  apply m [] = ok (m, [])
  apply m (e ∷ entries) = do
    first ← apply_payload m e.log_id e.payload
    rest ← apply first.0 entries
    ok (rest.0, first.1 ∷ rest.1)

  abbrev pub payload_of :
      StateMachineStore db r → Assoc String (Assoc String Bytes) → SnapshotPayload r
  payload_of m contents = record {
    last_applied = m.inner.sm_last_applied;
    last_membership = m.inner.sm_last_membership;
    contents = contents;
  }

  unfoldable pub build_payload : StateMachineStore db r → Result (SnapshotPayload r)
  unfolding build_contents
  build_payload m = do
    contents ← build_contents db m.store [] m.inner.sm_collections
    ok (payload_of m contents)

  -- The machine after its store holds the contents of a snapshot.
  abbrev pub restored :
      StateMachineStore db r → SnapshotPayload r → db.State × List String → StateMachineStore db r
  restored m payload loaded = record {
    inner = record m.inner {
      sm_last_applied = payload.last_applied;
      sm_last_membership = payload.last_membership;
      sm_collections = loaded.1;
    };
    store = loaded.0;
  }

  unfoldable pub restore_payload :
      StateMachineStore db r → SnapshotPayload r → Result (StateMachineStore db r)
  unfolding clear_collections delete_entries load_contents put_entries
  restore_payload m payload = do
    cleared ← clear_collections db m.store m.inner.sm_collections
    loaded ← load_contents db cleared [] payload.contents
    ok (restored m payload loaded)

  abbrev pub next_idx : StateMachineStore db r → ℕ
  next_idx m = (m.inner.snapshot_idx + 1) % 2 ^ 64

  abbrev pub snapshot_of :
      Codec r → StateMachineStore db r → SnapshotPayload r → Bytes → StoredSnapshot r
  snapshot_of codec m payload bytes = record {
    meta = record {
      last_log_id = payload.last_applied;
      last_membership = payload.last_membership;
      snapshot_id = codec.snapshot_id payload.last_applied (next_idx m);
    };
    bytes = bytes;
  }

  abbrev pub with_snapshot : StateMachineStore db r → ℕ → StoredSnapshot r → StateMachineStore db r
  with_snapshot m idx snapshot = record m {
    inner = record m.inner { snapshot_idx = idx; current_snapshot = some snapshot };
  }

  -- The machine and the snapshot, which is also kept as the current one.
  unfoldable pub build_snapshot :
      Codec r → StateMachineStore db r → Result (StateMachineStore db r × StoredSnapshot r)
  build_snapshot codec m = do
    payload ← build_payload m
    bytes ← codec.encode payload
    ok (
      with_snapshot m (next_idx m) (snapshot_of codec m payload bytes),
      snapshot_of codec m payload bytes,
    )

  unfoldable pub install_snapshot :
      Codec r → StateMachineStore db r → StoredSnapshot r → Result (StateMachineStore db r)
  install_snapshot codec m snapshot = do
    payload ← codec.decode snapshot.bytes
    m' ← restore_payload m payload
    ok (with_snapshot m' m'.inner.snapshot_idx snapshot)
