-- ===== src/Consensus/StateMachine/Replication.antt =====
-- crates/ocf-consensus/src/storage.rs: a snapshot that one machine builds and another installs.
use open_compute_fabric_rs.Prelude.{
  String, ◌≡◌, refl, sym, ap, subst, ◌∙◌, false, List, [], arith, string_eq, Option-cases, inl, inr,
  any,
}
use open_compute_fabric_rs.Prelude.Assoc.{Assoc, lookup}
use open_compute_fabric_rs.Prelude.Sets.{contains as has}
use open_compute_fabric_rs.Core.Error.{ok, ◌>>=◌, ok_of_bind}
use open_compute_fabric_rs.Store.{Bytes, IsPlain, StateStore}
use open_compute_fabric_rs.Consensus.Storage.{Raft, Codec, SnapshotPayload, StoredSnapshot}
use open_compute_fabric_rs.Consensus.StateMachine.{
  StateMachineStore, build_contents, clear_collections, load_contents, build_payload, payload_of,
  snapshot_of, with_snapshot, restored, restore_payload, build_snapshot, install_snapshot,
}
use open_compute_fabric_rs.Consensus.StateMachine.Restore.{
  ArePlain, clear_collections_get, load_contents_get, build_contents-Agrees, Agrees-nil,
}
use open_compute_fabric_rs.Consensus.StateMachine.Apply.{IsTracked, Came}

-- A codec whose decoding undoes its encoding.
pub record IsFaithful {r : Raft} (codec : Codec r) : Type 0 where
  pub undone :
      (p : SnapshotPayload r) (bytes : Bytes)
      → codec.encode p ≡ ok bytes
      → codec.decode bytes ≡ ok p

module _ {db : StateStore} {r : Raft} where
  restored_get :
      (m n : StateMachineStore db r) (contents : Assoc String (Assoc String Bytes))
      (cleared s : db.State) (collections : List String)
      → IsTracked m
      → IsTracked n
      → build_contents db m.store [] m.inner.sm_collections ≡ ok contents
      → clear_collections db n.store n.inner.sm_collections ≡ ok cleared
      → load_contents db cleared [] contents ≡ ok (s, collections)
      → (c k : String)
      → (IsPlain c → db.get s c k ≡ db.get m.store c k)
        × (has c collections ≡ has c m.inner.sm_collections)
  unfolding has any lookup
  restored_get m n contents cleared s collections tm tn built h loaded c k =
      let b =
        build_contents-Agrees db m.store [] m.inner.sm_collections contents built
          (Agrees-nil db m.store) in
      let l =
        load_contents_get db cleared [] contents s collections b.0.unique b.0.uniques loaded
          (λ d u. let e = b.1 d in tm.plain d (ground (arith, u, e))) c k in
      let total = b.1 c in
      (
        (λ q.
            let e =
              clear_collections_get db n.store cleared n.inner.sm_collections h tn.plain c k q in
            let kept = l.0 q in
            let mine = tm.known c k q in
            let other = tn.known c k q in
            elim (Option-cases (lookup c contents)) [
              | inl absent ↦ ground (arith, kept, e, total, mine, other, absent)
              | inr (kv, found) ↦
                  let read = b.0.reads c kv found k in
                  ground (arith, kept, e, total, read, other, found)
            ]),
        ground (arith, l.1, total),
      )

  -- What one machine's payload holds, installed in another that knows every collection of its
  -- store, leaves that with what the first holds, if the first knew every collection too.
  restored-Came :
      (m n n' : StateMachineStore db r) (payload : SnapshotPayload r)
      → IsTracked m
      → IsTracked n
      → build_payload m ≡ ok payload
      → restore_payload n payload ≡ ok n'
      → Came m n' (db.get m.store) m.inner.sm_last_applied
        × (n'.inner.sm_last_membership ≡ m.inner.sm_last_membership)
  unfolding build_payload restore_payload
  restored-Came m n n' payload tm tn built h =
      let b =
        ok_of_bind (build_contents db m.store [] m.inner.sm_collections)
          (λ contents. ok (payload_of m contents)) built in
      let same : payload_of m b.0 ≡ payload = cc b.2 in
      let h' = subst (λ p. restore_payload n p ≡ ok n') (sym same) h in
      let cleared =
        ok_of_bind (clear_collections db n.store n.inner.sm_collections)
          (λ s. load_contents db s [] b.0 >>= λ l. ok (restored n (payload_of m b.0) l)) h' in
      let loaded =
        ok_of_bind (load_contents db cleared.0 [] b.0) (λ l. ok (restored n (payload_of m b.0) l))
          cleared.2 in
      let made : restored n (payload_of m b.0) loaded.0 ≡ n' = cc loaded.2 in
      let g = restored_get m n b.0 cleared.0 loaded.0.0 loaded.0.1 tm tn b.1 cleared.1 loaded.1 in
      rw (sym made) (
        (
          (λ c k q. (g c k).0 q),
          record {
            plain = λ c u. let e = (g c "").1 in tm.plain c (ground (arith, u, e));
            known =
                λ c k q u. let e = (g c k).1 in (g c k).0 q ∙ tm.known c k q (ground (arith, u, e));
          },
          refl,
        ),
        refl,
      )

  restored_stale :
      (m n n' : StateMachineStore db r) (payload : SnapshotPayload r) (c k : String)
      → ArePlain m.inner.sm_collections
      → IsPlain c
      → n.inner.sm_collections ≡ []
      → has c m.inner.sm_collections ≡ false
      → build_payload m ≡ ok payload
      → restore_payload n payload ≡ ok n'
      → db.get n'.store c k ≡ db.get n.store c k
  unfolding build_payload restore_payload has any lookup
  restored_stale m n n' payload c k ps q fresh absent built h =
      let b =
        ok_of_bind (build_contents db m.store [] m.inner.sm_collections)
          (λ contents. ok (payload_of m contents)) built in
      let same : payload_of m b.0 ≡ payload = cc b.2 in
      let h' = subst (λ p. restore_payload n p ≡ ok n') (sym same) h in
      let cleared =
        ok_of_bind (clear_collections db n.store n.inner.sm_collections)
          (λ s. load_contents db s [] b.0 >>= λ l. ok (restored n (payload_of m b.0) l)) h' in
      let loaded =
        ok_of_bind (load_contents db cleared.0 [] b.0) (λ l. ok (restored n (payload_of m b.0) l))
          cleared.2 in
      let made : restored n (payload_of m b.0) loaded.0 ≡ n' = cc loaded.2 in
      let a =
        build_contents-Agrees db m.store [] m.inner.sm_collections b.0 b.1
          (Agrees-nil db m.store) in
      let l =
        load_contents_get db cleared.0 [] b.0 loaded.0.0 loaded.0.1 a.0.unique a.0.uniques loaded.1
          (λ d u. let e = a.1 d in ps d (ground (arith, u, e))) c k in
      let e =
        clear_collections_get db n.store cleared.0 n.inner.sm_collections cleared.1
          (λ d u. absurd (cc (rw (fresh) at u))) c k q in
      let kept = l.0 q in
      let total = a.1 c in
      let unknown : has c n.inner.sm_collections ≡ false = rw fresh refl in
      rw (sym made) (ground (arith, kept, total, e, unknown, absent))

  -- What an installation of a built snapshot restores.
  installed_payload :
      (codec : Codec r) (m m' n n' : StateMachineStore db r) (snapshot : StoredSnapshot r)
      → IsFaithful codec
      → build_snapshot codec m ≡ ok (m', snapshot)
      → install_snapshot codec n snapshot ≡ ok n'
      → (payload : SnapshotPayload r) × (x : StateMachineStore db r) × (build_payload m
          ≡ ok payload)
        × (restore_payload n payload ≡ ok x)
        × (with_snapshot x x.inner.snapshot_idx snapshot ≡ n')
  unfolding build_snapshot install_snapshot
  installed_payload codec m m' n n' snapshot f built installed =
      let p = ok_of_bind (build_payload m) _ built in
      let e = ok_of_bind (codec.encode p.0) _ p.2 in
      let taken : snapshot_of codec m p.0 e.0 ≡ snapshot = cc e.2 in
      let d = ok_of_bind (codec.decode snapshot.bytes) _ installed in
      let q : ok p.0 ≡ ok d.0 =
        sym (f.undone p.0 e.0 e.1)
        ∙ ap (λ (x : StoredSnapshot r). codec.decode x.bytes) taken
        ∙ d.1 in
      let same : d.0 ≡ p.0 = cc q in
      let x =
        ok_of_bind (restore_payload n d.0) (λ y. ok (with_snapshot y y.inner.snapshot_idx snapshot))
          d.2 in
      (p.0, x.0, p.1, ap (restore_payload n) (sym same) ∙ x.1, cc x.2)

  -- If decoding undoes encoding and two machines each know every collection of their stores, which
  -- keep the contract, then the second, once it has installed the snapshot that the first built,
  -- holds under a collection and key what the first held there, with the first's last applied id and
  -- membership; and it knows every collection again. U+001F occurs in no collection that either
  -- machine knows or that is read.
  pub install_snapshot-build_snapshot :
      (codec : Codec r) (m m' n n' : StateMachineStore db r) (snapshot : StoredSnapshot r)
      (c k : String)
      → IsFaithful codec
      → IsTracked m
      → IsTracked n
      → IsPlain c
      → build_snapshot codec m ≡ ok (m', snapshot)
      → install_snapshot codec n snapshot ≡ ok n'
      → (db.get n'.store c k ≡ db.get m.store c k)
        × (n'.inner.sm_last_applied ≡ m.inner.sm_last_applied)
        × (n'.inner.sm_last_membership ≡ m.inner.sm_last_membership)
        × IsTracked n'
  install_snapshot-build_snapshot codec m m' n n' snapshot c k f tm tn q built installed =
      let i = installed_payload codec m m' n n' snapshot f built installed in
      let came = restored-Came m n i.1 i.0 tm tn i.2 i.3 in
      rw (sym i.4) (
        came.0.0 c k q,
        came.0.2,
        came.1,
        record { plain = came.0.1.plain; known = came.0.1.known },
      )

  -- A machine that knows no collection, as after a restart over a durable store, keeps whatever its
  -- store held under a collection that the snapshot's machine does not know, when it installs that
  -- snapshot, if its store keeps the contract. U+001F occurs in no collection that the snapshot's
  -- machine knows or that is read.
  pub install_snapshot_stale :
      (codec : Codec r) (m m' n n' : StateMachineStore db r) (snapshot : StoredSnapshot r)
      (c k : String)
      → IsFaithful codec
      → ArePlain m.inner.sm_collections
      → IsPlain c
      → n.inner.sm_collections ≡ []
      → has c m.inner.sm_collections ≡ false
      → build_snapshot codec m ≡ ok (m', snapshot)
      → install_snapshot codec n snapshot ≡ ok n'
      → db.get n'.store c k ≡ db.get n.store c k
  install_snapshot_stale codec m m' n n' snapshot c k f ps q fresh absent built installed =
      let i = installed_payload codec m m' n n' snapshot f built installed in
      rw (sym i.4) (restored_stale m n i.1 i.0 c k ps q fresh absent i.2 i.3)
