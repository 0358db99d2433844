-- ===== src/Core/Quantity.antt =====
-- crates/ocf-core/src/quantity.rs: amounts of compute resources. Each is a `u64`.
use open_compute_fabric_rs.Prelude.{ℕ, ◌-◌, Bool, ◌&&◌, leb}

pub record ResourceSpec : Type 0 where
  pub cpu_millis : ℕ
  pub memory_bytes : ℕ
  pub disk_bytes : ℕ

abbrev pub default : ResourceSpec
default = record { cpu_millis = 0; memory_bytes = 0; disk_bytes = 0 }

unfoldable pub fits_in : ResourceSpec → ResourceSpec → Bool
fits_in s available =
    leb s.cpu_millis available.cpu_millis
    && leb s.memory_bytes available.memory_bytes
    && leb s.disk_bytes available.disk_bytes

-- Subtraction stops at 0 here as `saturating_sub` does.
unfoldable pub saturating_sub : ResourceSpec → ResourceSpec → ResourceSpec
saturating_sub s used = record {
  cpu_millis = s.cpu_millis - used.cpu_millis;
  memory_bytes = s.memory_bytes - used.memory_bytes;
  disk_bytes = s.disk_bytes - used.disk_bytes;
}
