-- ===== src/Consensus/Storage/Log.antt =====
-- crates/ocf-consensus/src/storage.rs: the log as a map from indices.
use open_compute_fabric_rs.Prelude.{
  ℕ, ◌≤◌, ◌<◌, ◌≡◌, refl, ap, ◌∙◌, Bool, true, false, ◌&&◌, List, [], ◌∷◌, Option, none, some,
  arith, nat_eq, nat_beq, ltb, leb, if◌then◌else◌, Bool-cases, inl, inr, filter, any, All, ◌⊎◌,
}
use open_compute_fabric_rs.Prelude.Assoc.{Assoc, lookup, remove, keys, lookup-remove, is_some}
use open_compute_fabric_rs.Prelude.Sets.{contains as has}
use open_compute_fabric_rs.Consensus.Storage.{
  Raft, Entry, Inner, insert_entry, append_entries, append, remove_keys, truncate, purge,
  last_entry, last_from, get_log_state,
}

module _ {r : Raft} where
  lookup-insert_entry :
      (k j : ℕ) (e : Entry r) (log : Assoc ℕ (Entry r))
      → lookup j (insert_entry k e log) ≡ (if nat_beq k j then some e else lookup j log)
  unfolding insert_entry lookup
  lookup-insert_entry k j e [] = ground arith
  lookup-insert_entry k j e ((i, d) ∷ log) = ground (arith, lookup-insert_entry k j e log)

  -- The last of the entries with this index, if there is one.
  pub latest : ℕ → List (Entry r) → Option (Entry r)
  latest j [] = none
  latest j (e ∷ entries) =
      let rest = latest j entries in
      if is_some rest then rest else if nat_beq (r.index e.log_id) j then some e else none

  lookup-append_entries :
      (log : Assoc ℕ (Entry r)) (entries : List (Entry r)) (j : ℕ)
      → lookup j (append_entries log entries)
        ≡ (if is_some (latest j entries) then latest j entries else lookup j log)
  unfolding append_entries latest
  lookup-append_entries log [] j = refl
  lookup-append_entries log (e ∷ entries) j = ground (
    arith,
    lookup-append_entries (insert_entry (r.index e.log_id) e log) entries j,
    lookup-insert_entry (r.index e.log_id) j e log,
  )

  lookup-remove_keys :
      (log : Assoc ℕ (Entry r)) (ks : List ℕ) (j : ℕ)
      → lookup j (remove_keys log ks) ≡ (if has j ks then none else lookup j log)
  unfolding remove_keys has any
  lookup-remove_keys log [] j = refl
  lookup-remove_keys log (k ∷ ks) j =
      ground (arith, lookup-remove_keys (remove k log) ks j, lookup-remove k j log)

  -- A key is collected exactly if it is there and passes the test.
  has-collected :
      (p : ℕ → Bool) (log : Assoc ℕ (Entry r)) (j : ℕ)
      → has j (filter p (keys log)) ≡ (p j && is_some (lookup j log))
  unfolding has any filter lookup
  has-collected p [] j = ground arith
  has-collected p ((k, e) ∷ log) j = elim (Bool-cases (nat_beq k j)) [
    | inl q ↦
        let same : k ≡ j = ground arith in
        elim (Bool-cases (p j)) [
          | inl t ↦ let pk : p k ≡ true = ap p same ∙ t in rw pk (ground (arith, q))
          | inr u ↦
              let pk : p k ≡ false = ap p same ∙ u in rw pk (ground (arith, has-collected p log j))
        ]
    | inr q ↦ ground (arith, has-collected p log j)
  ]

  -- What every index reads after the log has changed: `append` sets the indices of its entries, a
  -- later entry over an earlier one of the same index; `truncate` drops exactly the indices from the
  -- given one on, `purge` exactly those up to the given one; every other index reads as before.
  pub log_reads :
      (inner : Inner r) (entries : List (Entry r)) (log_id : r.LogId) (j : ℕ)
      → (lookup j (append inner entries).log
          ≡ (if is_some (latest j entries) then latest j entries else lookup j inner.log))
        × (lookup j (truncate inner log_id).log
            ≡ (if leb (r.index log_id) j then none else lookup j inner.log))
        × (lookup j (purge inner log_id).log
            ≡ (if leb j (r.index log_id) then none else lookup j inner.log))
  unfolding append truncate purge
  log_reads inner entries log_id j = (
    lookup-append_entries inner.log entries j,
    ground (
      arith,
      lookup-remove_keys inner.log (filter (λ k. leb (r.index log_id) k) (keys inner.log)) j,
      has-collected (λ k. leb (r.index log_id) k) inner.log j,
    ),
    ground (
      arith,
      lookup-remove_keys inner.log (filter (λ k. leb k (r.index log_id)) (keys inner.log)) j,
      has-collected (λ k. leb k (r.index log_id)) inner.log j,
    ),
  )

  -- The indices are in strictly ascending order.
  abbrev pub IsSorted : Assoc ℕ (Entry r) → Type 0
  IsSorted [] = Unit
  IsSorted ((k, e) ∷ log) = All (λ d. k < d.0) log × IsSorted log

  All-insert_entry :
      (b k : ℕ) (e : Entry r) (log : Assoc ℕ (Entry r))
      → b < k
      → All (λ d. b < d.0) log
      → All (λ d. b < d.0) (insert_entry k e log)
  unfolding insert_entry
  All-insert_entry b k e [] h a = (h, tt)
  All-insert_entry b k e ((j, d) ∷ log) h (l, a) =
      let rest = All-insert_entry b k e log h a in
      elim (Bool-cases (ltb k j)) [
        | inl below ↦ rw below (h, (l, a))
        | inr above ↦ rw above (elim (Bool-cases (nat_beq k j)) [
          | inl same ↦ rw same (h, a)
          | inr other ↦ rw other (l, rest)
        ])
      ]

  All-below :
      (b c : ℕ) (log : Assoc ℕ (Entry r)) → b < c → All (λ d. c < d.0) log → All (λ d. b < d.0) log
  All-below b c [] h a = tt
  All-below b c ((j, d) ∷ log) h (l, a) = (omega arith, All-below b c log h a)

  insert_entry-IsSorted :
      (k : ℕ) (e : Entry r) (log : Assoc ℕ (Entry r))
      → IsSorted log
      → IsSorted (insert_entry k e log)
  unfolding insert_entry
  insert_entry-IsSorted k e [] s = (tt, tt)
  insert_entry-IsSorted k e ((j, d) ∷ log) (a, s) =
      let rest = insert_entry-IsSorted k e log s in
      elim (Bool-cases (ltb k j)) [
        | inl below ↦
            let lt : k < j = ground arith in rw below ((lt, All-below k j log lt a), (a, s))
        | inr above ↦ rw above (elim (Bool-cases (nat_beq k j)) [
          | inl same ↦ let q : j ≡ k = ground arith in rw same (rw q at a, s)
          | inr other ↦ rw other (All-insert_entry j k e log (ground arith) a, rest)
        ])
      ]

  append_entries-IsSorted :
      (log : Assoc ℕ (Entry r)) (entries : List (Entry r))
      → IsSorted log
      → IsSorted (append_entries log entries)
  unfolding append_entries
  append_entries-IsSorted log [] s = s
  append_entries-IsSorted log (e ∷ entries) s =
      append_entries-IsSorted (insert_entry (r.index e.log_id) e log) entries
        (insert_entry-IsSorted (r.index e.log_id) e log s)

  All-remove :
      (b k : ℕ) (log : Assoc ℕ (Entry r))
      → All (λ d. b < d.0) log
      → All (λ d. b < d.0) (remove k log)
  unfolding remove
  All-remove b k [] a = tt
  All-remove b k ((j, d) ∷ log) (l, a) =
      let rest = All-remove b k log a in
      elim (Bool-cases (nat_beq j k)) [ inl same ↦ rw same rest | inr other ↦ rw other (l, rest) ]

  remove-IsSorted : (k : ℕ) (log : Assoc ℕ (Entry r)) → IsSorted log → IsSorted (remove k log)
  unfolding remove
  remove-IsSorted k [] s = tt
  remove-IsSorted k ((j, d) ∷ log) (a, s) =
      let rest = remove-IsSorted k log s in
      elim (Bool-cases (nat_beq j k)) [
        | inl same ↦ rw same rest
        | inr other ↦ rw other (All-remove j k log a, rest)
      ]

  remove_keys-IsSorted :
      (log : Assoc ℕ (Entry r)) (ks : List ℕ) → IsSorted log → IsSorted (remove_keys log ks)
  unfolding remove_keys
  remove_keys-IsSorted log [] s = s
  remove_keys-IsSorted log (k ∷ ks) s =
      remove_keys-IsSorted (remove k log) ks (remove-IsSorted k log s)

  -- The entry of the greatest index.
  abbrev IsLast : Assoc ℕ (Entry r) → Entry r → Type 0
  IsLast log e =
      (k : ℕ) × (lookup k log ≡ some e) × ((j : ℕ) → is_some (lookup j log) ≡ true → j ≤ k)

  last_from-IsLast :
      (k : ℕ) (e : Entry r) (log : Assoc ℕ (Entry r))
      → IsSorted ((k, e) ∷ log)
      → IsLast ((k, e) ∷ log) (last_from e log)
  unfolding last_from lookup
  last_from-IsLast k e [] s = (k, ground arith, λ j h. ground arith)
  last_from-IsLast k e ((i, d) ∷ log) (a, s) =
      let (m, found, top) = last_from-IsLast i d log s in
      let above : i ≤ m = top i (ground arith) in
      (
        m,
        ground (arith, a.0),
        λ j h. elim (Bool-cases (nat_beq k j)) [
          | inl same ↦ ground (arith, a.0)
          | inr other ↦ top j (rw other at h)
        ],
      )

  last_lem :
      (inner : Inner r) (log : Assoc ℕ (Entry r))
      → inner.log ≡ log
      → IsSorted log
      → ((log ≡ []) × ((get_log_state inner).1 ≡ inner.last_purged))
        ⊎ ((k : ℕ) × (e : Entry r) × (lookup k log ≡ some e)
            × ((get_log_state inner).1 ≡ some e.log_id)
            × ((j : ℕ) → is_some (lookup j log) ≡ true → j ≤ k))
  unfolding get_log_state last_entry
  last_lem inner [] q u = inl (refl, rw (q, get_log_state, last_entry))
  last_lem inner ((k, e) ∷ log) q u =
      let l = last_from-IsLast k e log u in
      inr (l.0, last_from e log, l.1, rw (q, get_log_state, last_entry), l.2)

  -- The last log id is that of the entry of the greatest index, or the last purged one where the log
  -- is empty, if the indices are in ascending order; and `append`, `truncate` and `purge` keep them
  -- so.
  pub get_log_state_lem :
      (inner : Inner r) (entries : List (Entry r)) (log_id : r.LogId)
      → IsSorted inner.log
      → (((inner.log ≡ []) × ((get_log_state inner).1 ≡ inner.last_purged))
          ⊎ ((k : ℕ) × (e : Entry r) × (lookup k inner.log ≡ some e)
              × ((get_log_state inner).1 ≡ some e.log_id)
              × ((j : ℕ) → is_some (lookup j inner.log) ≡ true → j ≤ k)))
        × IsSorted (append inner entries).log
        × IsSorted (truncate inner log_id).log
        × IsSorted (purge inner log_id).log
  unfolding append truncate purge
  get_log_state_lem inner entries log_id s = (
    last_lem inner inner.log refl s,
    append_entries-IsSorted inner.log entries s,
    remove_keys-IsSorted inner.log (filter (λ k. leb (r.index log_id) k) (keys inner.log)) s,
    remove_keys-IsSorted inner.log (filter (λ k. leb k (r.index log_id)) (keys inner.log)) s,
  )
