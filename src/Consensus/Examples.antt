-- ===== src/Consensus/Examples.antt =====
-- crates/ocf-consensus: two machines over the in-memory store, and a codec of small snapshots.
use open_compute_fabric_rs.Prelude.{
  ℕ, String, ◌≡◌, refl, subst, true, false, ◌&&◌, List, [], ◌∷◌, Option, none, some, arith, ltb,
  leb, nat_eq, string_eq, pair_eq, if◌then◌else◌, length, any,
}
use open_compute_fabric_rs.Prelude.Assoc.{Assoc, lookup, insert, remove, is_some}
use open_compute_fabric_rs.Prelude.Sets.{contains as has, add}
use open_compute_fabric_rs.Core.Error.{Result, ok, err, internal}
use open_compute_fabric_rs.Store.{Bytes, is_plain, IsPlain}
use open_compute_fabric_rs.Store.Memory.{new_store, put, get, delete, listed, strip_prefix}
use open_compute_fabric_rs.Store.Memory.Laws.{get-put, memory}
use open_compute_fabric_rs.Consensus.Storage.{
  Raft, Entry, EntryPayload, KvCommand, KvResponse, Codec, SnapshotPayload, StoredSnapshot, Inner,
  new_storage, append, truncate, purge,
}
use open_compute_fabric_rs.Consensus.StateMachine.{
  StateMachineStore, apply_command, apply_payload, apply, build_payload, restore_payload,
  build_snapshot, install_snapshot,
}
use open_compute_fabric_rs.Consensus.Storage.Log.{latest, log_reads, IsSorted}
use open_compute_fabric_rs.Consensus.StateMachine.Apply.{IsTracked, committed, last_id, apply_lem}
use open_compute_fabric_rs.Consensus.StateMachine.Replication.{
  IsFaithful, install_snapshot-build_snapshot, install_snapshot_stale,
}

abbrev raft : Raft
raft = record { LogId = ℕ; index = λ n. n; less = ltb; Vote = ℕ; Membership = ℕ; no_membership = 0 }

-- It encodes the snapshots whose contents are one value under "a" in "vpcs".
encode_parts : Option ℕ → Option ℕ × ℕ → Assoc String (Assoc String Bytes) → Result Bytes
encode_parts (some n) (none, m) ((c, (k, v) ∷ []) ∷ []) =
    if string_eq.beq c "vpcs" && string_eq.beq k "a"
    then ok (n ∷ m ∷ v)
    else err (internal "unsupported")
encode_parts last membership contents = err (internal "unsupported")

decode_bytes : Bytes → Result (SnapshotPayload raft)
decode_bytes (n ∷ m ∷ v) = ok (record {
  last_applied = some n;
  last_membership = (none, m);
  contents = ("vpcs", ("a", v) ∷ []) ∷ [];
})
decode_bytes bytes = err (internal "truncated")

abbrev codec : Codec raft
codec = record {
  encode = λ p. encode_parts p.last_applied p.last_membership p.contents;
  decode = decode_bytes;
  snapshot_id = λ last idx. "id";
}

undone_parts :
    (last : Option ℕ) (membership : Option ℕ × ℕ) (contents : Assoc String (Assoc String Bytes))
    (bytes : Bytes)
    → encode_parts last membership contents ≡ ok bytes
    → decode_bytes bytes
      ≡ ok (record { last_applied = last; last_membership = membership; contents = contents })
unfolding encode_parts decode_bytes
undone_parts (some n) (none, m) ((c, (k, v) ∷ []) ∷ []) bytes h =
    ground (arith, string_eq.beq_iff c "vpcs", string_eq.beq_iff k "a")
undone_parts last membership contents bytes h = ground arith

codec-IsFaithful : IsFaithful codec
codec-IsFaithful = record {
  undone = λ p bytes h. undone_parts p.last_applied p.last_membership p.contents bytes h;
}

abbrev entries : List (Entry raft)
entries =
    record { log_id = 3; payload = EntryPayload.normal (KvCommand.put "vpcs" "a" (7 ∷ [])) }
    ∷ record { log_id = 4; payload = EntryPayload.blank }
    ∷ []

abbrev leader : StateMachineStore memory raft
leader = record { inner = new_storage raft; store = new_store }

leader-IsTracked : IsTracked leader
unfolding lookup has any
leader-IsTracked = record { plain = λ c h. absurd (cc h); known = λ c k q h. refl }

abbrev applied : StateMachineStore memory raft
applied = record {
  inner = record (new_storage raft) { sm_last_applied = some 4; sm_collections = "vpcs" ∷ [] };
  store = put new_store "vpcs" "a" (7 ∷ []);
}

abbrev responses : List KvResponse
responses = record { applied = true } ∷ record { applied = false } ∷ []

entries_applied : apply leader entries ≡ ok (applied, responses)
unfolding apply apply_payload apply_command insert add has any
entries_applied = refl

vpcs-IsPlain : IsPlain "vpcs"
unfolding is_plain
vpcs-IsPlain = refl

nodes-IsPlain : IsPlain "nodes"
unfolding is_plain
nodes-IsPlain = refl

-- The separator is what the store cannot tell from a key's own.
shared_slot : get (put new_store "a\u{1f}b" "c" (1 ∷ [])) "a" "b\u{1f}c" ≡ some (1 ∷ [])
unfolding insert lookup
shared_slot = refl

apply_lem_example :
    (get applied.store "vpcs" "a" ≡ committed entries (get new_store) "vpcs" "a")
    × IsTracked applied
    × (some 4 ≡ last_id none entries)
    × (length responses ≡ 2)
apply_lem_example =
    apply_lem leader applied entries responses "vpcs" "a" (vpcs-IsPlain, (tt, tt)) vpcs-IsPlain
      leader-IsTracked entries_applied

applied-IsTracked : IsTracked applied
applied-IsTracked =
    (apply_lem leader applied entries responses "vpcs" "a" (vpcs-IsPlain, (tt, tt)) vpcs-IsPlain
      leader-IsTracked entries_applied).1

-- The store of this machine holds a value already.
abbrev follower : StateMachineStore memory raft
follower = record {
  inner = record (new_storage raft) { sm_collections = "nodes" ∷ [] };
  store = put new_store "nodes" "x" (1 ∷ []);
}

follower-IsTracked : IsTracked follower
unfolding lookup has any
follower-IsTracked = record {
  plain = λ c h. subst IsPlain ((string_eq.beq_iff "nodes" c).0 (ground (arith, h))) nodes-IsPlain;
  known = λ c k q h.
      let held = get-put new_store follower.store "nodes" "x" (1 ∷ []) refl nodes-IsPlain c k q in
      ground (arith, held, h);
}

abbrev snapshot : StoredSnapshot raft
snapshot = record {
  meta = record { last_log_id = some 4; last_membership = (none, 0); snapshot_id = "id" };
  bytes = 4 ∷ 0 ∷ 7 ∷ [];
}

abbrev leader_after : StateMachineStore memory raft
leader_after = record {
  inner = record applied.inner { snapshot_idx = 1; current_snapshot = some snapshot };
  store = applied.store;
}

built : build_snapshot codec applied ≡ ok (leader_after, snapshot)
unfolding build_snapshot build_payload listed strip_prefix insert encode_parts
built = refl

abbrev follower_after : StateMachineStore memory raft
follower_after = record {
  inner = record (new_storage raft) {
    sm_last_applied = some 4;
    sm_last_membership = (none, 0);
    sm_collections = "vpcs" ∷ [];
    current_snapshot = some snapshot;
  };
  store = put (delete follower.store "nodes" "x") "vpcs" "a" (7 ∷ []);
}

installed : install_snapshot codec follower snapshot ≡ ok follower_after
unfolding install_snapshot restore_payload listed strip_prefix insert remove decode_bytes add has
    any
installed = refl

install_snapshot-build_snapshot_example :
    (get follower_after.store "nodes" "x" ≡ get applied.store "nodes" "x")
    × (follower_after.inner.sm_last_applied ≡ applied.inner.sm_last_applied)
    × (follower_after.inner.sm_last_membership ≡ applied.inner.sm_last_membership)
    × IsTracked follower_after
install_snapshot-build_snapshot_example =
    install_snapshot-build_snapshot codec applied leader_after follower follower_after snapshot
      "nodes" "x" codec-IsFaithful applied-IsTracked follower-IsTracked nodes-IsPlain built
      installed

-- The same machine after a restart: its store is kept, its collections are not.
abbrev restarted : StateMachineStore memory raft
restarted = record { inner = new_storage raft; store = follower.store }

abbrev restarted_after : StateMachineStore memory raft
restarted_after = record {
  inner = follower_after.inner;
  store = put restarted.store "vpcs" "a" (7 ∷ []);
}

installed_again : install_snapshot codec restarted snapshot ≡ ok restarted_after
unfolding install_snapshot restore_payload listed strip_prefix insert remove decode_bytes add has
    any
installed_again = refl

nodes_unknown : has "nodes" applied.inner.sm_collections ≡ false
unfolding has any
nodes_unknown = refl

install_snapshot_stale_example :
    get restarted_after.store "nodes" "x" ≡ get restarted.store "nodes" "x"
install_snapshot_stale_example =
    install_snapshot_stale codec applied leader_after restarted restarted_after snapshot "nodes" "x"
      codec-IsFaithful applied-IsTracked.plain nodes-IsPlain refl nodes_unknown built
      installed_again

abbrev logged : Inner raft
logged = record (new_storage raft) {
  log = (3, record { log_id = 3; payload = EntryPayload.blank }) ∷ [];
  last_purged = some 2;
}

log_reads_example :
    (lookup 4 (append logged entries).log
      ≡ (if is_some (latest 4 entries) then latest 4 entries else lookup 4 logged.log))
    × (lookup 4 (truncate logged 4).log ≡ (if leb 4 4 then none else lookup 4 logged.log))
    × (lookup 4 (purge logged 4).log ≡ (if leb 4 4 then none else lookup 4 logged.log))
log_reads_example = log_reads logged entries 4 4

logged-IsSorted : IsSorted logged.log
logged-IsSorted = (tt, tt)
