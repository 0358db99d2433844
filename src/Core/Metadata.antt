-- ===== src/Core/Metadata.antt =====
-- crates/ocf-core/src/metadata.rs: the bookkeeping of every resource. The current time and a fresh
-- random id are arguments. A time is a number of ticks of the clock.
use open_compute_fabric_rs.Prelude.{ℕ, String, Bool, [], string_eq, all, false, none, some}
use open_compute_fabric_rs.Prelude.Assoc.{Assoc, lookup, insert}
use open_compute_fabric_rs.Core.Scope.{ResourceId}

abbrev pub Time : Type 0
Time = ℕ

pub record Metadata : Type 0 where
  pub id : ResourceId
  pub name : String
  pub labels : Assoc String String
  pub annotations : Assoc String String
  pub created_at : Time
  pub updated_at : Time

abbrev pub new : ResourceId → Time → String → Metadata
new fresh now name = record {
  id = fresh;
  name = name;
  labels = [];
  annotations = [];
  created_at = now;
  updated_at = now;
}

abbrev pub named : Time → String → Metadata
named now name = new name now name

unfoldable pub with_label : Metadata → String → String → Metadata
with_label m key value = record m { labels = insert key value m.labels }

unfoldable pub with_annotation : Metadata → String → String → Metadata
with_annotation m key value = record m { annotations = insert key value m.annotations }

unfoldable pub matches_labels : Metadata → Assoc String String → Bool
matches_labels m selector =
    all
      (λ entry. elim (lookup entry.0 m.labels) [
        | none ↦ false
        | some got ↦ string_eq.beq got entry.1
      ])
      selector

abbrev pub touch : Time → Metadata → Metadata
touch now m = record m { updated_at = now }
