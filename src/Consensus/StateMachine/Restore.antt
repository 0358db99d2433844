-- ===== src/Consensus/StateMachine/Restore.antt =====
-- crates/ocf-consensus/src/storage.rs: what `build_payload` reads of the store and what
-- `restore_payload` leaves in it.
use open_compute_fabric_rs.Prelude.{
  String, ◌≡◌, refl, sym, ap, ◌∙◌, ◌&&◌, ◌||◌, List, [], ◌∷◌, Option, none, some, arith, string_eq,
  true, beq_refl, subst, if◌then◌else◌, Bool-cases, inl, inr, any, All,
}
use open_compute_fabric_rs.Prelude.Assoc.{
  Assoc, lookup, insert, lookup-insert, IsUnique, insert-IsUnique, is_some,
}
use open_compute_fabric_rs.Prelude.Sets.{contains as has, add, contains-add}
use open_compute_fabric_rs.Core.Error.{ok, ok_of_bind}
use open_compute_fabric_rs.Store.{Bytes, IsPlain, StateStore}
use open_compute_fabric_rs.Consensus.StateMachine.{
  build_contents, delete_entries, clear_collections, put_entries, load_contents,
}

-- No collection among these has the character that joins a collection and a key.
abbrev pub ArePlain : List String → Type 0
ArePlain collections = (c : String) → has c collections ≡ true → IsPlain c

pub add-ArePlain :
    (collection : String) (collections : List String)
    → IsPlain collection
    → ArePlain collections
    → ArePlain (add collection collections)
add-ArePlain collection collections p ps c h = elim (Bool-cases (string_eq.beq collection c)) [
  | inl same ↦ subst IsPlain ((string_eq.beq_iff collection c).0 same) p
  | inr apart ↦ ps c (ground (arith, h, contains-add c collection collections))
]

module _ (db : StateStore) where
  delete_entries_get :
      (s s' : db.State) (collection : String) (entries : Assoc String Bytes)
      → delete_entries db s collection entries ≡ ok s'
      → IsPlain collection
      → (c k : String) → IsPlain c
      → db.get s' c k
        ≡ (if string_eq.beq collection c && is_some (lookup k entries) then none else db.get s c k)
  unfolding delete_entries lookup
  delete_entries_get s s' collection [] h p c k q = let same : s ≡ s' = cc h in ground arith
  delete_entries_get s s' collection ((key, value) ∷ entries) h p c k q =
      let d =
        ok_of_bind (db.delete s collection key) (λ t. delete_entries db t collection entries) h in
      let rest = delete_entries_get d.0 s' collection entries d.2 p c k q in
      let first = db.get-delete s d.0 collection key d.1 p c k q in ground (arith, rest, first)

  -- Where a collection is cleared, nothing of it is left, and nothing else is lost.
  pub clear_collections_get :
      (s s' : db.State) (known : List String)
      → clear_collections db s known ≡ ok s'
      → ArePlain known
      → (c k : String) → IsPlain c
      → db.get s' c k ≡ (if has c known then none else db.get s c k)
  unfolding clear_collections has any
  clear_collections_get s s' [] h p c k q = let q : s ≡ s' = cc h in ground arith
  clear_collections_get s s' (collection ∷ known) h p c k q =
      let l = ok_of_bind (db.list s collection) _ h in
      let d =
        ok_of_bind (delete_entries db s collection l.0) (λ t. clear_collections db t known) l.2 in
      let rest = clear_collections_get d.0 s' known d.2 (λ b m. p b (ground (arith, m))) c k q in
      let plain = p collection (rw (beq_refl collection) refl) in
      let first = delete_entries_get s d.0 collection l.0 d.1 plain c k q in
      let listed = (db.list_get s collection l.0 l.1).1 k in
      ground (arith, rest, first, listed, string_eq.beq_iff collection c)

  put_entries_get :
      (s s' : db.State) (collection : String) (entries : Assoc String Bytes)
      → IsUnique entries
      → put_entries db s collection entries ≡ ok s'
      → IsPlain collection
      → (c k : String) → IsPlain c
      → db.get s' c k ≡ (
          if string_eq.beq collection c && is_some (lookup k entries)
          then lookup k entries
          else db.get s c k)
  unfolding put_entries lookup
  put_entries_get s s' collection [] u h p c k q = let q : s ≡ s' = cc h in ground arith
  put_entries_get s s' collection ((key, value) ∷ entries) u h p c k q =
      let d =
        ok_of_bind (db.put s collection key value) (λ t. put_entries db t collection entries) h in
      let rest = put_entries_get d.0 s' collection entries u.1 d.2 p c k q in
      let first = db.get-put s d.0 collection key value d.1 p c k q in
      ground (arith, rest, first, string_eq.beq_iff key k)

  -- What a loaded store holds, over what it held before.
  abbrev pub overlaid :
      Assoc String (Assoc String Bytes) → db.State → String → String → Option Bytes
  overlaid contents s c k = elim (lookup c contents) [
    | none ↦ db.get s c k
    | some kv ↦ elim (lookup k kv) [ none ↦ db.get s c k | some v ↦ some v ]
  ]

  pub load_contents_get :
      (s : db.State) (collections : List String) (contents : Assoc String (Assoc String Bytes))
      (s' : db.State) (collections' : List String)
      → IsUnique contents
      → All (λ e. IsUnique e.1) contents
      → load_contents db s collections contents ≡ ok (s', collections')
      → ((c : String) → is_some (lookup c contents) ≡ true → IsPlain c)
      → (c k : String)
      → (IsPlain c → db.get s' c k ≡ overlaid contents s c k)
        × (has c collections' ≡ (has c collections || is_some (lookup c contents)))
  unfolding load_contents lookup
  load_contents_get s collections [] s' collections' u us h p c k =
      let same : s ≡ s' = cc h in
      let same' : collections ≡ collections' = cc h in ((λ q. ground arith), ground arith)
  load_contents_get s collections ((collection, kv) ∷ contents) s' collections' u us h p c k =
      let d =
        ok_of_bind (put_entries db s collection kv)
          (λ t. load_contents db t (add collection collections) contents) h in
      let rest =
        load_contents_get d.0 (add collection collections) contents s' collections' u.1 us.1 d.2
          (λ b m. p b (ground (arith, m))) c k in
      let plain = p collection (rw (beq_refl collection) refl) in
      let joined = contains-add c collection collections in
      let hit = string_eq.beq_iff collection c in
      (
        (λ q.
            let first = put_entries_get s d.0 collection kv us.0 d.1 plain c k q in
            let later = rest.0 q in ground (arith, later, first, hit, u.0)),
        ground (arith, rest.1, joined, hit, u.0),
      )

  -- Contents that agree with what the store holds.
  pub record Agrees (s : db.State) (contents : Assoc String (Assoc String Bytes)) : Type 0 where
    pub unique : IsUnique contents
    pub uniques : All (λ e. IsUnique e.1) contents
    pub reads :
        (c : String) (kv : Assoc String Bytes)
        → lookup c contents ≡ some kv
        → (k : String) → lookup k kv ≡ db.get s c k

  All-insert :
      (c : String) (kv : Assoc String Bytes) (contents : Assoc String (Assoc String Bytes))
      → IsUnique kv
      → All (λ e. IsUnique e.1) contents
      → All (λ e. IsUnique e.1) (insert c kv contents)
  unfolding insert
  All-insert c kv [] u us = (u, tt)
  All-insert c kv ((d, kw) ∷ contents) u (v, us) = elim (Bool-cases (string_eq.beq d c)) [
    | inl e ↦ rw e (u, us)
    | inr e ↦ rw e (v, All-insert c kv contents u us)
  ]

  Agrees-insert :
      (s : db.State) (c : String) (kv : Assoc String Bytes)
      (contents : Assoc String (Assoc String Bytes))
      → db.list s c ≡ ok kv
      → Agrees s contents
      → Agrees s (insert c kv contents)
  Agrees-insert s c kv contents h a =
      let l = db.list_get s c kv h in
      record {
        unique = insert-IsUnique c kv contents a.unique;
        uniques = All-insert c kv contents l.0 a.uniques;
        reads = λ d kw found k. elim (Bool-cases (string_eq.beq c d)) [
          | inl e ↦
              let same : c ≡ d = (string_eq.beq_iff c d).0 e in
              let stored : kv ≡ kw = ground (arith, lookup-insert c d kv contents) in
              ap (λ m. lookup k m) (sym stored) ∙ l.1 k ∙ ap (λ (x : String). db.get s x k) same
          | inr e ↦ a.reads d kw (ground (arith, lookup-insert c d kv contents)) k
        ];
      }

  -- A build collects, for each collection, what the store holds of it.
  pub build_contents-Agrees :
      (s : db.State) (contents : Assoc String (Assoc String Bytes)) (collections : List String)
      (built : Assoc String (Assoc String Bytes))
      → build_contents db s contents collections ≡ ok built
      → Agrees s contents
      → Agrees s built
        × ((c : String)
            → is_some (lookup c built) ≡ (has c collections || is_some (lookup c contents)))
  unfolding build_contents has any
  build_contents-Agrees s contents [] built h a =
      let q : contents ≡ built = cc h in rw (sym q) (a, λ c. refl)
  build_contents-Agrees s contents (collection ∷ collections) built h a =
      let l =
        ok_of_bind (db.list s collection)
          (λ es. build_contents db s (insert collection es contents) collections) h in
      let rest =
        build_contents-Agrees s (insert collection l.0 contents) collections built l.2
          (Agrees-insert s collection l.0 contents l.1 a) in
      (
        rest.0,
        λ c. ground (
          arith,
          rest.1 c,
          lookup-insert collection c l.0 contents,
          string_eq.beq_iff collection c,
        ),
      )

  pub Agrees-nil : (s : db.State) → Agrees s []
  unfolding lookup
  Agrees-nil s = record { unique = tt; uniques = tt; reads = λ c kv h. absurd (cc h) }
