-- ===== src/Consensus/StateMachine/Apply.antt =====
-- crates/ocf-consensus/src/storage.rs: what applying entries makes of the store.
use open_compute_fabric_rs.Prelude.{
  suc, String, ◌≡◌, refl, sym, ap, ◌∙◌, true, false, ◌&&◌, List, [], ◌∷◌, Option, none, some, arith,
  All, string_eq, if◌then◌else◌, length,
}
use open_compute_fabric_rs.Prelude.Sets.{contains as has, contains-add}
use open_compute_fabric_rs.Core.Error.{ok, ok_of_bind}
use open_compute_fabric_rs.Store.{Bytes, IsPlain, StateStore}
use open_compute_fabric_rs.Consensus.Storage.{Raft, Entry, EntryPayload, KvCommand, KvResponse}
use open_compute_fabric_rs.Consensus.StateMachine.Restore.{ArePlain, add-ArePlain}
use open_compute_fabric_rs.Consensus.StateMachine.{
  StateMachineStore, written, apply_command, applying, configured, apply_payload, apply,
}

-- A command's effect on what the store holds.
abbrev pub commanded : KvCommand → (String → String → Option Bytes) → String → String → Option Bytes
commanded (KvCommand.put collection key value) get c k =
    if string_eq.beq collection c && string_eq.beq key k then some value else get c k
commanded (KvCommand.delete collection key) get c k =
    if string_eq.beq collection c && string_eq.beq key k then none else get c k

-- The effect of an entry: that of its command, if it has one.
abbrev pub entered :
    {r : Raft} → EntryPayload r → (String → String → Option Bytes) → String → String → Option Bytes
entered EntryPayload.blank get = get
entered (EntryPayload.normal cmd) get = commanded cmd get
entered (EntryPayload.membership config) get = get

-- The effect of entries in their order.
pub committed :
    {r : Raft} → List (Entry r) → (String → String → Option Bytes) → String → String → Option Bytes
committed [] get = get
committed (e ∷ entries) get = committed entries (entered e.payload get)

-- The id of the last entry, or the one before.
pub last_id : {r : Raft} → Option r.LogId → List (Entry r) → Option r.LogId
last_id last [] = last
last_id last (e ∷ entries) = last_id (some e.log_id) entries

-- The command names a collection that the character U+001F does not occur in.
abbrev pub IsPlainCommand : KvCommand → Type 0
IsPlainCommand (KvCommand.put collection key value) = IsPlain collection
IsPlainCommand (KvCommand.delete collection key) = IsPlain collection

abbrev pub IsPlainPayload : {r : Raft} → EntryPayload r → Type 0
IsPlainPayload EntryPayload.blank = Unit
IsPlainPayload (EntryPayload.normal cmd) = IsPlainCommand cmd
IsPlainPayload (EntryPayload.membership config) = Unit

module _ {r : Raft} where
  committed_ext :
      (entries : List (Entry r)) (g h : String → String → Option Bytes) (c k : String)
      → g c k ≡ h c k
      → committed entries g c k ≡ committed entries h c k
  unfolding committed
  committed_ext [] g h c k e = e
  committed_ext (d ∷ entries) g h c k e =
      committed_ext entries (entered d.payload g) (entered d.payload h) c k (entered_ext d.payload)
    where
      entered_ext : (p : EntryPayload r) → entered p g c k ≡ entered p h c k
      entered_ext EntryPayload.blank = e
      entered_ext (EntryPayload.normal (KvCommand.put d j v)) = ground (arith, e)
      entered_ext (EntryPayload.normal (KvCommand.delete d j)) = ground (arith, e)
      entered_ext (EntryPayload.membership config) = e

module _ {db : StateStore} {r : Raft} where
  -- The machine knows every collection in which its store holds something, and U+001F occurs in none
  -- that it knows.
  pub record IsTracked (m : StateMachineStore db r) : Type 0 where
    pub plain : ArePlain m.inner.sm_collections
    pub known :
        (c k : String)
        → IsPlain c
        → has c m.inner.sm_collections ≡ false
        → db.get m.store c k ≡ none

  -- One machine comes of another by an effect on what the store holds.
  abbrev pub Came :
      StateMachineStore db r
      → StateMachineStore db r
      → (String → String → Option Bytes)
      → Option r.LogId
      → Type 0
  Came m m' get last =
      ((c k : String) → IsPlain c → db.get m'.store c k ≡ get c k)
      × IsTracked m'
      × (m'.inner.sm_last_applied ≡ last)

  apply_command-Came :
      (m m' : StateMachineStore db r) (cmd : KvCommand)
      → apply_command m cmd ≡ ok m'
      → IsPlainCommand cmd
      → IsTracked m
      → Came m m' (commanded cmd (db.get m.store)) m.inner.sm_last_applied
  unfolding apply_command
  apply_command-Came m m' (KvCommand.put collection key value) h p t =
      let w =
        ok_of_bind (db.put m.store collection key value) (λ s. ok (written m collection s)) h in
      let made : written m collection w.0 ≡ m' = cc w.2 in
      let first = db.get-put m.store w.0 collection key value w.1 p in
      rw (sym made) (
        first,
        record {
          plain = add-ArePlain collection m.inner.sm_collections p t.plain;
          known = λ c k q u.
              let fresh = first c k q in
              ground
                (arith, fresh, contains-add c collection m.inner.sm_collections, t.known c k q);
        },
        refl,
      )
  apply_command-Came m m' (KvCommand.delete collection key) h p t =
      let w = ok_of_bind (db.delete m.store collection key) (λ s. ok (written m collection s)) h in
      let made : written m collection w.0 ≡ m' = cc w.2 in
      let first = db.get-delete m.store w.0 collection key w.1 p in
      rw (sym made) (
        first,
        record {
          plain = add-ArePlain collection m.inner.sm_collections p t.plain;
          known = λ c k q u.
              let fresh = first c k q in
              ground
                (arith, fresh, contains-add c collection m.inner.sm_collections, t.known c k q);
        },
        refl,
      )

  apply_payload-Came :
      (m m' : StateMachineStore db r) (log_id : r.LogId) (p : EntryPayload r) (a : KvResponse)
      → apply_payload m log_id p ≡ ok (m', a)
      → IsPlainPayload p
      → IsTracked m
      → Came m m' (entered p (db.get m.store)) (some log_id)
  unfolding apply_payload
  apply_payload-Came m m' log_id EntryPayload.blank a h pp t =
      let made : applying m log_id ≡ m' = cc h in
      rw (sym made) ((λ c k q. refl), record { plain = t.plain; known = t.known }, refl)
  apply_payload-Came m m' log_id (EntryPayload.normal cmd) a h pp t =
      let w =
        ok_of_bind (apply_command (applying m log_id) cmd) (λ n. ok (n, record { applied = true }))
          h in
      let made : w.0 ≡ m' = cc w.2 in
      rw (sym made) (
        apply_command-Came (applying m log_id) w.0 cmd w.1 pp
          (record { plain = t.plain; known = t.known }))
  apply_payload-Came m m' log_id (EntryPayload.membership config) a h pp t =
      let made : configured m log_id config ≡ m' = cc h in
      rw (sym made) ((λ c k q. refl), record { plain = t.plain; known = t.known }, refl)

  apply-Came :
      (m m' : StateMachineStore db r) (entries : List (Entry r)) (responses : List KvResponse)
      → All (λ e. IsPlainPayload e.payload) entries
      → IsTracked m
      → apply m entries ≡ ok (m', responses)
      → Came m m' (committed entries (db.get m.store)) (last_id m.inner.sm_last_applied entries)
        × (length responses ≡ length entries)
  unfolding apply committed last_id
  apply-Came m m' [] responses ps t h =
      let made : m ≡ m' = cc h in
      let none_left : [] ≡ responses = cc h in
      rw (sym made, sym none_left) (((λ c k q. refl), t, refl), refl)
  apply-Came m m' (e ∷ entries) responses (p, ps) t h =
      let w = ok_of_bind (apply_payload m e.log_id e.payload) _ h in
      let v = ok_of_bind (apply w.0.0 entries) (λ rest. ok (rest.0, w.0.1 ∷ rest.1)) w.2 in
      let first = apply_payload-Came m w.0.0 e.log_id e.payload w.0.1 w.1 p t in
      let rest = apply-Came w.0.0 v.0.0 entries v.0.1 ps first.1 v.1 in
      let made : v.0.0 ≡ m' = cc v.2 in
      let answered : w.0.1 ∷ v.0.1 ≡ responses = cc v.2 in
      rw (sym made, sym answered)
        (
          (
            (λ c k q.
                rest.0.0 c k q
                ∙ committed_ext entries (db.get w.0.0.store) (entered e.payload (db.get m.store)) c
                    k (first.0 c k q)),
            rest.0.1,
            rest.0.2 ∙ ap (λ o. last_id o entries) first.2,
          ),
          ap suc rest.1,
        )

  -- A machine that knows every collection of its store and applies entries, on a store that keeps the
  -- contract, then holds what the commands among them make of what it held, in their order; it knows
  -- every collection again, and its last applied id is that of the last entry. There is one response
  -- for each entry. U+001F occurs in no collection that the machine knows, that a command names or
  -- that is read.
  pub apply_lem :
      (m m' : StateMachineStore db r) (entries : List (Entry r)) (responses : List KvResponse)
      (c k : String)
      → All (λ e. IsPlainPayload e.payload) entries
      → IsPlain c
      → IsTracked m
      → apply m entries ≡ ok (m', responses)
      → (db.get m'.store c k ≡ committed entries (db.get m.store) c k)
        × IsTracked m'
        × (m'.inner.sm_last_applied ≡ last_id m.inner.sm_last_applied entries)
        × (length responses ≡ length entries)
  apply_lem m m' entries responses c k ps q t h =
      let (came, n) = apply-Came m m' entries responses ps t h in (came.0 c k q, came.1, came.2, n)
