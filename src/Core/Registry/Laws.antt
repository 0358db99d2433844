-- ===== src/Core/Registry/Laws.antt =====
-- crates/ocf-core/src/registry.rs: registration and lookup of names.
use open_compute_fabric_rs.Prelude.{
  String, ◌≡◌, refl, ◌⊎◌, inl, inr, true, false, [], ◌∷◌, ◌+◌, suc, length, arith, string_eq,
  if◌then◌else◌, Bool-cases,
}
use open_compute_fabric_rs.Prelude.Assoc.{Assoc, lookup, insert, contains_key, lookup-insert}
use open_compute_fabric_rs.Core.Error.{ok, err, already_exists}
use open_compute_fabric_rs.Core.Registry.{
  Registry, provider_named, register, register_or_replace, get, contains, len,
}

module _ {ℓ} {A : Type ℓ} where
  length-insert :
      (k : String) (v : A) (m : Assoc String A)
      → length (insert k v m) ≡ (if contains_key k m then length m else suc (length m))
  unfolding insert lookup
  length-insert k v [] = refl
  length-insert k v ((j, w) ∷ m) = ground (arith, length-insert k v m)

  -- Replacing a provider reads back the new one at its name and leaves every other name.
  pub get-register_or_replace :
      (r : Registry A) (name : String) (provider : A) (j : String)
      → get (register_or_replace r name provider) j
        ≡ (if string_eq.beq name j then ok provider else get r j)
  unfolding register_or_replace get
  get-register_or_replace r name provider j =
      ground (arith, lookup-insert name j provider r.providers)

  -- The outcome of a registration whose name is free: the new registry reads the provider at that
  -- name, reads every other name as before, and holds one provider more.
  abbrev pub Registered : Registry A → String → A → Registry A → Type ℓ
  Registered r name provider r' =
      ((j : String) → get r' j ≡ (if string_eq.beq name j then ok provider else get r j))
      × (len r' ≡ len r + 1)

  -- Registering under a taken name fails with `AlreadyExists`; under a free name it succeeds, and
  -- then the new registry reads the provider at that name, reads every other name as before, and
  -- holds one provider more.
  pub register_lem :
      (r : Registry A) (name : String) (provider : A)
      → ((contains r name ≡ true)
          × (register r name provider ≡ err (already_exists (provider_named name))))
        ⊎ ((contains r name ≡ false)
            × ((r' : Registry A) × (register r name provider ≡ ok r')
                × Registered r name provider r'))
  unfolding register contains get len
  register_lem r name provider = elim (Bool-cases (contains_key name r.providers)) [
    | inl taken ↦ inl (taken, rw taken)
    | inr free ↦ inr (
      free,
      (
        record { providers = insert name provider r.providers },
        rw free,
        (
          λ j. ground (arith, lookup-insert name j provider r.providers),
          ground (arith, length-insert name provider r.providers),
        ),
      ),
    )
  ]
