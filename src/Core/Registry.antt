-- ===== src/Core/Registry.antt =====
-- crates/ocf-core/src/registry.rs: named providers of one contract. `A` is the provider behind
-- the `Arc`.
pub mod Laws
use open_compute_fabric_rs.Prelude.{
  String, Bool, List, [], length, ℕ, string_eq, if◌then◌else◌, is_empty as is_nil,
}
use open_compute_fabric_rs.Prelude.Assoc.{Assoc, lookup, insert, contains_key, values, keys}
use open_compute_fabric_rs.Core.Error.{Result, ok, err, already_exists, not_found, ok_or, concat}

pub record Registry {ℓ} (A : Type ℓ) : Type ℓ where
  pub providers : Assoc String A

-- "provider `name`"
abbrev pub provider_named : String → String
provider_named name = concat "provider `" (concat name "`")

module _ {ℓ} {A : Type ℓ} where
  unfoldable pub new : Registry A
  new = record { providers = [] }

  unfoldable pub register : Registry A → String → A → Result (Registry A)
  register r name provider =
      if contains_key name r.providers
      then err (already_exists (provider_named name))
      else ok (record { providers = insert name provider r.providers })

  unfoldable pub register_or_replace : Registry A → String → A → Registry A
  register_or_replace r name provider = record { providers = insert name provider r.providers }

  unfoldable pub get : Registry A → String → Result A
  get r name = ok_or (lookup name r.providers) (not_found (provider_named name))

  unfoldable pub contains : Registry A → String → Bool
  contains r name = contains_key name r.providers

  unfoldable pub names : Registry A → List String
  names r = keys r.providers

  unfoldable pub all_providers : Registry A → List A
  all_providers r = values r.providers

  unfoldable pub len : Registry A → ℕ
  len r = length r.providers

  unfoldable pub is_empty : Registry A → Bool
  is_empty r = is_nil r.providers
