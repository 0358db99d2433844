-- ===== src/Runtime/Autoscaler/Bounds.antt =====
-- crates/ocf-runtime/src/autoscaler.rs: the replica count that an evaluation asks for.
use open_compute_fabric_rs.Prelude.{
  ℕ, ◌^◌, ◌≤◌, ◌<◌, String, ◌≡◌, refl, ap, ◌∙◌, false, List, [], ◌∷◌, arith, if◌then◌else◌,
  Bool-cases, inl, inr, All,
}
use open_compute_fabric_rs.Prelude.Assoc.{Assoc}
use open_compute_fabric_rs.Prelude.Float.{F64}
use open_compute_fabric_rs.Prelude.Int.{ℤ, pos, ◌+ℤ◌, int_laws, max_ℤ, min_ℤ}
use open_compute_fabric_rs.Core.Error.{concat}
use open_compute_fabric_rs.Runtime.Autoscaler.{
  Autoscaler, ScalingRule, Printer, as_u32, fires, sum_rules, clamp_replicas, evaluate, next_delta,
  next_fired,
}

module _ {f : F64} where
  -- The sum of the changes of the rules that fire, without the accumulator.
  pub total_change : Assoc String f.Carrier → List (ScalingRule f) → ℤ
  total_change metrics [] = pos 0
  total_change metrics (rule ∷ rules) =
      if fires rule metrics
      then rule.change +ℤ total_change metrics rules
      else total_change metrics rules

  next_delta-total :
      (metrics : Assoc String f.Carrier) (delta : ℤ) (rule : ScalingRule f)
      (rules : List (ScalingRule f))
      → next_delta metrics delta rule +ℤ total_change metrics rules
        ≡ delta +ℤ total_change metrics (rule ∷ rules)
  unfolding next_delta total_change
  next_delta-total metrics delta rule rules = elim (Bool-cases (fires rule metrics)) [
    | inl e ↦ rw e (omega int_laws)
    | inr e ↦ rw e
  ]

  sum_rules-delta :
      (p : Printer f) (metrics : Assoc String f.Carrier) (delta : ℤ) (fired : List String)
      (rules : List (ScalingRule f))
      → (sum_rules p metrics delta fired rules).0 ≡ delta +ℤ total_change metrics rules
  unfolding sum_rules
  sum_rules-delta p metrics delta fired [] = unfold total_change in omega int_laws
  sum_rules-delta p metrics delta fired (rule ∷ rules) =
      sum_rules-delta p metrics (next_delta metrics delta rule) (next_fired p metrics fired rule)
        rules
      ∙ next_delta-total metrics delta rule rules

  -- Bounds that a `u32` has.
  pub record Fits (a : Autoscaler f) : Type 0 where
    pub min_fits : a.min_replicas < 2 ^ 32
    pub max_fits : a.max_replicas < 2 ^ 32

  clamp_lem :
      (a : Autoscaler f) (x : ℤ)
      → Fits a
      → (as_u32 (clamp_replicas a x) ≤ a.max_replicas)
        × (pos (as_u32 (clamp_replicas a x)) ≡ clamp_replicas a x)
  unfolding clamp_replicas
  clamp_lem a x h = ground arith

  desired_lem :
      (p : Printer f) (a : Autoscaler f) (current : ℕ) (metrics : Assoc String f.Carrier)
      → (evaluate p a current metrics).desired_replicas
        ≡ as_u32 (clamp_replicas a (pos current +ℤ (pos 0 +ℤ total_change metrics a.rules)))
  unfolding evaluate
  desired_lem p a current metrics =
      ap (λ d. as_u32 (clamp_replicas a (pos current +ℤ d)))
        (sum_rules-delta p metrics (pos 0) [] a.rules)

  -- For bounds that fit `u32`, the desired count is the current count plus the changes of all rules
  -- that fire, raised to the lower bound and then cut to the upper bound; the cast to `u32` loses
  -- nothing. So it never passes the upper bound.
  pub evaluate_desired :
      (p : Printer f) (a : Autoscaler f) (current : ℕ) (metrics : Assoc String f.Carrier)
      → Fits a
      → (pos (evaluate p a current metrics).desired_replicas
          ≡ min_ℤ
              (max_ℤ (pos current +ℤ total_change metrics a.rules) (pos a.min_replicas))
              (pos a.max_replicas))
        × ((evaluate p a current metrics).desired_replicas ≤ a.max_replicas)
  unfolding clamp_replicas
  evaluate_desired p a current metrics h =
      let x = pos current +ℤ (pos 0 +ℤ total_change metrics a.rules) in
      let same : x ≡ pos current +ℤ total_change metrics a.rules = omega int_laws in
      let c = clamp_lem a x h in
      rw (desired_lem p a current metrics) (c.1 ∙ ap (clamp_replicas a) same, c.0)

  sum_rules_quiet :
      (p : Printer f) (metrics : Assoc String f.Carrier) (rules : List (ScalingRule f))
      → All (λ rule. fires rule metrics ≡ false) rules
      → sum_rules p metrics (pos 0) [] rules ≡ (pos 0, [])
  unfolding sum_rules next_delta next_fired
  sum_rules_quiet p metrics [] h = refl
  sum_rules_quiet p metrics (rule ∷ rules) (quiet, h) = rw quiet (sum_rules_quiet p metrics rules h)

  -- Where no rule fires and the current count is above the upper bound, the reason says that the
  -- count is held, and the desired count is the upper bound, which is another number.
  pub evaluate_holding :
      (p : Printer f) (a : Autoscaler f) (current : ℕ) (metrics : Assoc String f.Carrier)
      → Fits a
      → All (λ rule. fires rule metrics ≡ false) a.rules
      → a.min_replicas ≤ a.max_replicas
      → a.max_replicas < current
      → ((evaluate p a current metrics).reason
          ≡ concat "no rule fired; holding at " (concat (p.number current) " replica(s)"))
        × ((evaluate p a current metrics).desired_replicas ≡ a.max_replicas)
        × ((evaluate p a current metrics).desired_replicas < current)
  unfolding evaluate clamp_replicas ◌+ℤ◌
  evaluate_holding p a current metrics h quiet le above =
      rw (sum_rules_quiet p metrics a.rules quiet) (refl, ground arith, ground arith)
