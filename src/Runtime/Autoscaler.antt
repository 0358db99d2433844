-- ===== src/Runtime/Autoscaler.antt =====
-- crates/ocf-runtime/src/autoscaler.rs: scaling rules and their evaluation. An `i64` sum of `i32`
-- changes overflows only beyond 2 ^ 31 rules, and is an integer here. How a float and a signed
-- change are printed are arguments.
pub mod Bounds
use open_compute_fabric_rs.Prelude.{
  ℕ, ◌-◌, ◌%◌, ◌^◌, String, Bool, true, false, List, [], ◌∷◌, ◌++◌, Option, none, some, string_eq,
  is_empty, if◌then◌else◌,
}
use open_compute_fabric_rs.Prelude.Assoc.{Assoc, lookup, insert}
use open_compute_fabric_rs.Prelude.Float.{F64, lt as lt_f64}
use open_compute_fabric_rs.Prelude.Int.{ℤ, pos, negsuc, ◌+ℤ◌, max_ℤ, min_ℤ}
use open_compute_fabric_rs.Core.Error.{concat}
use open_compute_fabric_rs.Core.Metadata as Metadata
use open_compute_fabric_rs.Core.Metadata.{Time}
use open_compute_fabric_rs.Core.Scope.{ResourceId}

pub data Comparison : Type 0 where
  gt lt : Comparison

-- Texts that `format!` prints.
pub record Printer (f : F64) : Type 0 where
  pub number : ℕ → String
  pub float : f.Carrier → String
  pub signed : ℤ → String

module _ (f : F64) where
  unfoldable pub matches : Comparison → f.Carrier → f.Carrier → Bool
  matches Comparison.gt value threshold = lt_f64 f threshold value
  matches Comparison.lt value threshold = lt_f64 f value threshold

pub record ScalingRule (f : F64) : Type 0 where
  pub metric : String
  pub comparison : Comparison
  pub threshold : f.Carrier
  pub change : ℤ

pub record Autoscaler (f : F64) : Type 0 where
  pub metadata : Metadata.Metadata
  pub selector : Assoc String String
  pub min_replicas : ℕ
  pub max_replicas : ℕ
  pub rules : List (ScalingRule f)

pub record AutoscaleDecision : Type 0 where
  pub desired_replicas : ℕ
  pub reason : String

-- `as u32`: the residue of an integer modulo 2 ^ 32.
abbrev pub as_u32 : ℤ → ℕ
as_u32 (pos n) = n % 2 ^ 32
as_u32 (negsuc n) = 2 ^ 32 - 1 - n % 2 ^ 32

-- `join(", ")`
join_after : String → List String → String
join_after joined [] = joined
join_after joined (y ∷ ys) = join_after (concat joined (concat ", " y)) ys

join : List String → String
unfolding join_after
join [] = ""
join (x ∷ xs) = join_after x xs

sign_of : Comparison → String
sign_of Comparison.gt = ">"
sign_of Comparison.lt = "<"

module _ {f : F64} where
  abbrev pub new : ResourceId → Time → String → ℕ → ℕ → Autoscaler f
  new fresh now name min_replicas max_replicas = record {
    metadata = Metadata.new fresh now name;
    selector = [];
    min_replicas = min_replicas;
    max_replicas = max_replicas;
    rules = [];
  }

  abbrev pub with_selector : Autoscaler f → String → String → Autoscaler f
  with_selector a key value = record a { selector = insert key value a.selector }

  abbrev pub with_rule : Autoscaler f → ScalingRule f → Autoscaler f
  with_rule a rule = record a { rules = a.rules ++ rule ∷ [] }

  unfoldable pub fires : ScalingRule f → Assoc String f.Carrier → Bool
  fires rule metrics = elim (lookup rule.metric metrics) [
    | none ↦ false
    | some v ↦ matches f rule.comparison v rule.threshold
  ]

  rule_text : Printer f → ScalingRule f → String
  unfolding sign_of
  rule_text p rule = concat rule.metric (
      concat " " (
        concat (sign_of rule.comparison)
          (concat " " (concat (p.float rule.threshold) (concat " => " (p.signed rule.change))))))

  -- One round of the loop over the rules: the delta and the texts after it.
  next_delta : Assoc String f.Carrier → ℤ → ScalingRule f → ℤ
  next_delta metrics delta rule = if fires rule metrics then delta +ℤ rule.change else delta

  next_fired : Printer f → Assoc String f.Carrier → List String → ScalingRule f → List String
  unfolding rule_text
  next_fired p metrics fired rule =
      if fires rule metrics then fired ++ rule_text p rule ∷ [] else fired

  -- The loop over the rules, from the delta and the texts so far.
  unfoldable pub sum_rules :
      Printer f → Assoc String f.Carrier → ℤ → List String → List (ScalingRule f) → ℤ × List String
  unfolding next_delta next_fired
  sum_rules p metrics delta fired [] = (delta, fired)
  sum_rules p metrics delta fired (rule ∷ rules) =
      sum_rules p metrics (next_delta metrics delta rule) (next_fired p metrics fired rule) rules

  unfoldable pub clamp_replicas : Autoscaler f → ℤ → ℤ
  clamp_replicas a proposed = min_ℤ (max_ℤ proposed (pos a.min_replicas)) (pos a.max_replicas)

  reason_text : Printer f → Autoscaler f → ℕ → ℕ → List String → String
  unfolding join
  reason_text p a current desired fired =
      if is_empty fired
      then concat "no rule fired; holding at " (concat (p.number current) " replica(s)")
      else concat "fired [" (
          concat (join fired) (
            concat "]; " (
              concat (p.number current) (
                concat " -> " (
                  concat (p.number desired) (
                    concat " (clamped to [" (
                      concat (p.number a.min_replicas)
                        (concat ", " (concat (p.number a.max_replicas) "])")))))))))

  unfoldable pub evaluate :
      Printer f → Autoscaler f → ℕ → Assoc String f.Carrier → AutoscaleDecision
  unfolding reason_text
  evaluate p a current metrics =
      let (delta, fired) = sum_rules p metrics (pos 0) [] a.rules in
      let desired = as_u32 (clamp_replicas a (pos current +ℤ delta)) in
      record { desired_replicas = desired; reason = reason_text p a current desired fired }
