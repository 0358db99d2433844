-- ===== src/LoadBalancer/Routing/Minimum.antt =====
-- crates/ocf-loadbalancer/src/routing.rs: what `pick_min_by` returns.
use open_compute_fabric_rs.Prelude.{
  ℕ, ◌≤◌, ◌≡◌, refl, ap, subst, true, false, List, [], ◌∷◌, ◌++◌, Option, none, some, arith, Member,
  All, All-Member,
}
use open_compute_fabric_rs.Prelude.Float.{F64, is_nan, lt}
use open_compute_fabric_rs.LoadBalancer.Model.{Backend}
use open_compute_fabric_rs.Prelude.Minimum.{better, min_from, min_by, Compares, min_from_least}
use open_compute_fabric_rs.LoadBalancer.Routing.{cmp_metric, pick_min_by}

module _ (f : F64) (metric : Backend f → f.Carrier) where
  score_of : Option ℕ → ℕ
  score_of none = 0
  score_of (some n) = n

  score : Backend f → ℕ
  score b = score_of (f.rank (metric b))

  abbrev IsNumber : Backend f → Type 0
  IsNumber b = is_nan f (metric b) ≡ false

  compares : Compares (cmp_metric f metric) IsNumber score
  unfolding cmp_metric score score_of
  compares a b p q = ground arith

  lt-score : (a b : Backend f) → score b ≤ score a → lt f (metric a) (metric b) ≡ false
  unfolding score score_of
  lt-score a b h = ground arith

  -- If no candidate's metric is a NaN, no candidate has a metric below that of the one picked.
  pub pick_min_by_least :
      (candidates : List (Backend f)) {picked : Backend f}
      → All (λ b. is_nan f (metric b) ≡ false) candidates
      → pick_min_by f candidates metric ≡ some picked
      → (c : Backend f) → Member c candidates
      → lt f (metric c) (metric picked) ≡ false
  unfolding pick_min_by min_by
  pick_min_by_least [] numbers h c m = elim m [ ]
  pick_min_by_least (x ∷ xs) {picked} (p, numbers) h c m =
      let q : min_from (cmp_metric f metric) x xs ≡ picked = cc in
      let least = min_from_least (cmp_metric f metric) IsNumber score compares x xs p numbers in
      subst (λ b. lt f (metric c) (metric b) ≡ false) q
        (lt-score c (min_from (cmp_metric f metric) x xs) (
          All-Member (λ d. score (min_from (cmp_metric f metric) x xs) ≤ score d) (x ∷ xs) m
            (least.1, least.2)))

  min_from_last :
      (best nan : Backend f) (xs : List (Backend f))
      → is_nan f (metric nan) ≡ true
      → min_from (cmp_metric f metric) best (xs ++ nan ∷ []) ≡ nan
  unfolding min_from better cmp_metric
  min_from_last best nan [] h = ground arith
  min_from_last best nan (x ∷ xs) h =
      min_from_last (better (cmp_metric f metric best x) best x) nan xs h

  -- A candidate whose metric is a NaN is picked whenever it stands last, whatever the metrics of
  -- the other candidates.
  pub pick_min_by_nan_last :
      (candidates : List (Backend f)) (nan : Backend f)
      → is_nan f (metric nan) ≡ true
      → pick_min_by f (candidates ++ nan ∷ []) metric ≡ some nan
  unfolding pick_min_by min_by min_from
  pick_min_by_nan_last [] nan h = refl
  pick_min_by_nan_last (x ∷ xs) nan h = ap some (min_from_last x nan xs h)
