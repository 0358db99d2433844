-- ===== src/Runtime/Examples.antt =====
-- crates/ocf-runtime: an autoscaler with one rule.
use open_compute_fabric_rs.Prelude.{
  ℕ, String, ◌≤◌, ◌≡◌, refl, [], ◌∷◌, Option, some, string_eq, arith, All, false,
}
use open_compute_fabric_rs.Prelude.Assoc.{Assoc, lookup}
use open_compute_fabric_rs.Prelude.Float.{sample_f64}
use open_compute_fabric_rs.Prelude.Int.{pos, ◌+ℤ◌, max_ℤ, min_ℤ}
use open_compute_fabric_rs.Runtime.Autoscaler as Autoscaler
use open_compute_fabric_rs.Runtime.Autoscaler.{
  Comparison, Printer, ScalingRule, evaluate, fires, matches,
}
use open_compute_fabric_rs.Runtime.Autoscaler.Bounds.{Fits, total_change, evaluate_desired}

abbrev printer : Printer sample_f64
printer = record { number = λ n. "n"; float = λ x. "x"; signed = λ z. "z" }

abbrev web : Autoscaler.Autoscaler sample_f64
web =
    Autoscaler.with_rule (Autoscaler.new "as1" 0 "web" 2 10)
      (record { metric = "cpu"; comparison = Comparison.gt; threshold = some 80; change = pos 3 })

abbrev busy : Assoc String (Option ℕ)
busy = ("cpu", some 95) ∷ []

abbrev idle : Assoc String (Option ℕ)
idle = ("cpu", some 20) ∷ []

web-Fits : Fits web
web-Fits = record { min_fits = omega arith; max_fits = omega arith }

evaluate_desired_example :
    (pos (evaluate printer web 9 busy).desired_replicas
      ≡ min_ℤ (max_ℤ (pos 9 +ℤ total_change busy web.rules) (pos 2)) (pos 10))
    × ((evaluate printer web 9 busy).desired_replicas ≤ 10)
evaluate_desired_example = evaluate_desired printer web 9 busy web-Fits

idle_quiet : All (λ rule. fires rule idle ≡ false) web.rules
unfolding fires matches lookup
idle_quiet = (refl, tt)
