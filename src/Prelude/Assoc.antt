-- ===== src/Prelude/Assoc.antt =====
-- `HashMap`, `BTreeMap` and `BTreeSet` as association lists. The program reads them by key or
-- visits every value; the order in which a `HashMap` is visited is not specified, and here it is
-- the order of first insertion.
use mathlib.Core.Path.{◌≡◌, refl, ap, sym}
use mathlib.Core.Logic.{◌⊎◌, inl, inr}
use mathlib.Core.Bool.{Bool, true, false}
use mathlib.Core.List.{List, [], ◌∷◌, map}
use mathlib.Core.Option.{Option, none, some}
use native.Mathlib.Omega.{arith}
use open_compute_fabric_rs.Prelude.Tests.{if◌then◌else◌, Bool-cases, Eq, beq_refl}
use open_compute_fabric_rs.Prelude.Lists.{Member, here, there}

abbrev pub Assoc {ℓ κ} : Type ℓ → Type κ → Type (ℓ ⊔ κ)
Assoc K V = List (K × V)

abbrev pub is_some {ℓ} : {A : Type ℓ} → Option A → Bool
is_some none = false
is_some (some _) = true

module _ {ℓ κ} {K : Type ℓ} {V : Type κ} where
  abbrev pub values : Assoc K V → List V
  values m = map (λ e. e.1) m

  abbrev pub keys : Assoc K V → List K
  keys m = map (λ e. e.0) m

module _ {ℓ κ} {K : Type ℓ} {V : Type κ} ⦃e : Eq K⦄ where
  unfoldable pub lookup : K → Assoc K V → Option V
  lookup k [] = none
  lookup k ((j, v) ∷ m) = if e.beq j k then some v else lookup k m

  unfoldable pub insert : K → V → Assoc K V → Assoc K V
  insert k v [] = (k, v) ∷ []
  insert k v ((j, w) ∷ m) = if e.beq j k then (k, v) ∷ m else (j, w) ∷ insert k v m

  unfoldable pub remove : K → Assoc K V → Assoc K V
  remove k [] = []
  remove k ((j, w) ∷ m) = let rest = remove k m in if e.beq j k then rest else (j, w) ∷ rest

  abbrev pub contains_key : K → Assoc K V → Bool
  contains_key k m = is_some (lookup k m)

  pub lookup-insert :
      (k j : K) (v : V) (m : Assoc K V)
      → lookup j (insert k v m) ≡ (if e.beq k j then some v else lookup j m)
  unfolding lookup insert
  lookup-insert k j v [] = refl
  lookup-insert k j v ((i, w) ∷ m) =
      ground (arith, e.beq_iff k j, e.beq_iff i k, e.beq_iff i j, lookup-insert k j v m)

  pub lookup-insert_cases :
      (k j : K) (v : V) (m : Assoc K V) {w : V}
      → lookup j (insert k v m) ≡ some w
      → ((k ≡ j) × (v ≡ w)) ⊎ ((e.beq k j ≡ false) × (lookup j m ≡ some w))
  lookup-insert_cases k j v m h = elim (Bool-cases (e.beq k j)) [
    | inl hit ↦ inl ((e.beq_iff k j).0 hit, ground (arith, lookup-insert k j v m))
    | inr miss ↦ inr (miss, ground (arith, lookup-insert k j v m))
  ]

  pub lookup-remove :
      (k j : K) (m : Assoc K V) → lookup j (remove k m) ≡ (if e.beq k j then none else lookup j m)
  unfolding lookup remove
  lookup-remove k j [] = ground arith
  lookup-remove k j ((i, w) ∷ m) =
      ground (arith, e.beq_iff k j, e.beq_iff i k, e.beq_iff i j, lookup-remove k j m)

  -- No key occurs twice, as in a map.
  abbrev pub IsUnique : Assoc K V → Type κ
  IsUnique [] = Unit
  IsUnique ((k, v) ∷ m) = (lookup k m ≡ none) × IsUnique m

  pub insert-IsUnique : (k : K) (v : V) (m : Assoc K V) → IsUnique m → IsUnique (insert k v m)
  unfolding insert lookup
  insert-IsUnique k v [] h = (refl, tt)
  insert-IsUnique k v ((j, w) ∷ m) h =
      ground (arith, insert-IsUnique k v m h.1, lookup-insert k j v m, e.beq_iff j k, e.beq_iff k j)

  pub remove-IsUnique : (k : K) (m : Assoc K V) → IsUnique m → IsUnique (remove k m)
  unfolding remove lookup
  remove-IsUnique k [] h = tt
  remove-IsUnique k ((j, w) ∷ m) h = ground (arith, remove-IsUnique k m h.1, lookup-remove k j m)

  -- Every stored value is visited, and in a map a visited value is stored under some key.
  pub Member-of_lookup : (k : K) (m : Assoc K V) {v : V} → lookup k m ≡ some v → Member v (values m)
  unfolding lookup
  Member-of_lookup k [] h = absurd (cc)
  Member-of_lookup k ((j, w) ∷ m) {v} h = elim (Bool-cases (e.beq j k)) [
    | inl same ↦ here (ground arith)
    | inr other ↦ there (Member-of_lookup k m (rw other at h))
  ]

  pub lookup_of_Member :
      (m : Assoc K V) {v : V} → IsUnique m → Member v (values m) → (k : K) × (lookup k m ≡ some v)
  unfolding lookup
  lookup_of_Member [] u n = elim n [ ]
  lookup_of_Member ((j, w) ∷ m) u (here q) = (j, rw (beq_refl j) (ap some (sym q)))
  lookup_of_Member ((j, w) ∷ m) {v} u (there n) =
      let r = lookup_of_Member m u.1 n in
      let k = r.0 in let found : lookup k m ≡ some v = r.1 in (k, ground (arith, e.beq_iff j k))

  pub lookup_of_entry :
      (m : Assoc K V) (k : K) (v : V) → IsUnique m → Member (k, v) m → lookup k m ≡ some v
  unfolding lookup
  lookup_of_entry [] k v u n = elim n [ ]
  lookup_of_entry ((j, w) ∷ m) k v u (here q) = ground (arith, beq_refl k)
  lookup_of_entry ((j, w) ∷ m) k v u (there n) =
      let found = lookup_of_entry m k v u.1 n in ground (arith, e.beq_iff j k)

  pub entry_of_lookup : (m : Assoc K V) (k : K) {v : V} → lookup k m ≡ some v → Member (k, v) m
  unfolding lookup
  entry_of_lookup [] k h = absurd (cc)
  entry_of_lookup ((j, w) ∷ m) k {v} h = elim (Bool-cases (e.beq j k)) [
    | inl same ↦ here (ground (arith, e.beq_iff j k))
    | inr other ↦ there (entry_of_lookup m k (rw other at h))
  ]

pub ruleset assoc_laws = (lookup-insert, lookup-remove)
