-- ===== src/LoadBalancer/Routing/Rotation.antt =====
-- crates/ocf-loadbalancer/src/routing.rs: successive round-robin selections.
use open_compute_fabric_rs.Prelude.{
  ℕ, zero, suc, ◌+◌, ◌-◌, ◌%◌, ◌≤◌, ◌<◌, ◌≡◌, refl, sym, ap, ◌∙◌, List, [], ◌∷◌, Option, false,
  arith, get_elem?, length, is_empty, leb, if◌then◌else◌, Bool-cases, ◌⊎◌, inl, inr,
}
use native.Mathlib.Nat.{mod-add-mod, add-mod_right, mod-eq_of_lt, mod-lt}
use open_compute_fabric_rs.Prelude.Float.{F64}
use open_compute_fabric_rs.LoadBalancer.Model.{Backend}
use open_compute_fabric_rs.LoadBalancer.Routing.{pick_round_robin, usize_mod}

-- The distance from the cursor to the next visit of an index.
wait : ℕ → ℕ → ℕ → ℕ
wait l c i = if leb (c % l) i then i - c % l else i + l - c % l

wait-lt : (l c i : ℕ) → i < l → wait l c i < l
unfolding wait
wait-lt l c i h = let m : c % l < l = mod-lt c (omega arith) in ground arith

wait-sum : (l c i : ℕ) → i < l → (c % l + wait l c i ≡ i) ⊎ (c % l + wait l c i ≡ i + l)
unfolding wait
wait-sum l c i h =
    let m : c % l < l = mod-lt c (omega arith) in
    elim (Bool-cases (leb (c % l) i)) [ inl e ↦ inl (ground arith) | inr e ↦ inr (ground arith) ]

wait-mod : (l c i : ℕ) → i < l → (c + wait l c i) % l ≡ i
wait-mod l c i h = sym (mod-add-mod c l (wait l c i)) ∙ elim (wait-sum l c i h) [
  | inl e ↦ ap (λ (n : ℕ). n % l) e ∙ mod-eq_of_lt h
  | inr e ↦ ap (λ (n : ℕ). n % l) e ∙ add-mod_right i l ∙ mod-eq_of_lt h
]

module _ (f : F64) where
  -- The result of the call after `k` calls over the same candidates.
  pub nth_pick : ℕ → List (Backend f) → ℕ → Option (Backend f)
  nth_pick cursor cs zero = (pick_round_robin f cursor cs).1
  nth_pick cursor cs (suc k) = nth_pick (pick_round_robin f cursor cs).0 cs k

  nth_pick_lem :
      (cursor : ℕ) (cs : List (Backend f)) (k : ℕ)
      → is_empty cs ≡ false
      → cursor + k < usize_mod
      → nth_pick cursor cs k ≡ get_elem? cs ((cursor + k) % length cs)
  unfolding nth_pick pick_round_robin
  nth_pick_lem cursor [] k h lt = absurd (cc)
  nth_pick_lem cursor (c ∷ cs) zero h lt =
      ap (λ (n : ℕ). get_elem? (c ∷ cs) (n % length (c ∷ cs))) (omega arith)
  nth_pick_lem cursor (c ∷ cs) (suc k) h lt =
      let next : (cursor + 1) % usize_mod ≡ cursor + 1 = omega arith in
      rw next (
        nth_pick_lem (cursor + 1) (c ∷ cs) k refl (omega arith)
        ∙ ap (λ (n : ℕ). get_elem? (c ∷ cs) (n % length (c ∷ cs))) (omega arith))

  -- Among any `length cs` successive round-robin selections over the candidates `cs` there is one
  -- of each candidate, as long as the cursor does not wrap in between.
  pub pick_round_robin_fair :
      (cursor : ℕ) (cs : List (Backend f)) (i : ℕ)
      → i < length cs
      → cursor + length cs ≤ usize_mod
      → (k : ℕ) × (k < length cs) × (nth_pick cursor cs k ≡ get_elem? cs i)
  pick_round_robin_fair cursor [] i h room = elim h [ ]
  pick_round_robin_fair cursor (c ∷ cs) i h room =
      let l = length (c ∷ cs) in
      let k = wait l cursor i in
      (
        k,
        wait-lt l cursor i h,
        nth_pick_lem cursor (c ∷ cs) k refl (omega (arith, wait-lt l cursor i h))
            ∙ ap (get_elem? (c ∷ cs)) (wait-mod l cursor i h),
      )
