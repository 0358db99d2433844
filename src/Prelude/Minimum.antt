-- ===== src/Prelude/Minimum.antt =====
-- `Iterator::min_by`, and what it returns.
use Prim.Native.Nat.{ℕ, ◌≤◌, compare, Ordering}
use mathlib.Core.Path.{◌≡◌, refl, subst}
use mathlib.Core.List.{List, [], ◌∷◌}
use mathlib.Core.Option.{Option, none, some}
use native.Mathlib.Omega.{arith}
use open_compute_fabric_rs.Prelude.Lists.{Member, here, there, All}

module _ {ℓ} {A : Type ℓ} where
  -- A later element replaces the best so far only if that compares greater.
  unfoldable pub better : Ordering → A → A → A
  better Ordering.gt best candidate = candidate
  better _ best candidate = best

  unfoldable pub min_from : (A → A → Ordering) → A → List A → A
  min_from cmp best [] = best
  min_from cmp best (x ∷ xs) = min_from cmp (better (cmp best x) best x) xs

  unfoldable pub min_by : (A → A → Ordering) → List A → Option A
  unfolding min_from better
  min_by cmp [] = none
  min_by cmp (x ∷ xs) = some (min_from cmp x xs)

  Member-better :
      (o : Ordering) (best x : A) (xs : List A) {m : A}
      → Member m (better o best x ∷ xs)
      → Member m (best ∷ x ∷ xs)
  unfolding better
  Member-better Ordering.lt best x xs (here e) = here e
  Member-better Ordering.lt best x xs (there n) = there (there n)
  Member-better Ordering.eq best x xs (here e) = here e
  Member-better Ordering.eq best x xs (there n) = there (there n)
  Member-better Ordering.gt best x xs m = there m

  Member-min_from :
      (cmp : A → A → Ordering) (best : A) (xs : List A) → Member (min_from cmp best xs) (best ∷ xs)
  unfolding min_from
  Member-min_from cmp best [] = here refl
  Member-min_from cmp best (x ∷ xs) =
      Member-better (cmp best x) best x xs (Member-min_from cmp (better (cmp best x) best x) xs)

  pub Member-min_by :
      (cmp : A → A → Ordering) (xs : List A) {m : A} → min_by cmp xs ≡ some m → Member m xs
  unfolding min_by
  Member-min_by cmp [] h = absurd (cc)
  Member-min_by cmp (x ∷ xs) {m} h =
      let q : min_from cmp x xs ≡ m = cc in
      subst (λ z. Member z (x ∷ xs)) q (Member-min_from cmp x xs)

  pub min_by-cons :
      (cmp : A → A → Ordering) (x : A) (xs : List A) → (m : A) × (min_by cmp (x ∷ xs) ≡ some m)
  unfolding min_by
  min_by-cons cmp x xs = (min_from cmp x xs, refl)

-- A comparison that is that of the scores, at elements with a property.
module _ {ℓ κ} {A : Type ℓ} (cmp : A → A → Ordering) (P : A → Type κ) (score : A → ℕ) where
  abbrev pub Compares : Type (ℓ ⊔ κ)
  Compares = (a b : A) → P a → P b → cmp a b ≡ compare (score a) (score b)

  better-score :
      Compares
      → (best x : A) → P best
      → P x
      → P (better (cmp best x) best x)
        × (score (better (cmp best x) best x) ≤ score best)
        × (score (better (cmp best x) best x) ≤ score x)
  unfolding better
  better-score h best x p q = ground (arith, h best x p q)

  pub min_from_least :
      Compares
      → (best : A) (xs : List A) → P best
      → All P xs
      → P (min_from cmp best xs)
        × (score (min_from cmp best xs) ≤ score best)
        × All (λ c. score (min_from cmp best xs) ≤ score c) xs
  unfolding min_from
  min_from_least h best [] p q = (p, omega arith, tt)
  min_from_least h best (x ∷ xs) p q =
      let kept = better-score h best x p q.0 in
      let rest = min_from_least h (better (cmp best x) best x) xs kept.0 q.1 in
      (rest.0, omega arith, (omega arith, rest.2))
