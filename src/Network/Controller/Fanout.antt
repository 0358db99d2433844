-- ===== src/Network/Controller/Fanout.antt =====
-- crates/ocf-network/src/controller.rs: what `fan_out` reaches.
use open_compute_fabric_rs.Prelude.{◌≡◌, refl, ap, ◌⊎◌, inl, inr, List, [], ◌∷◌, ◌++◌}
use open_compute_fabric_rs.Core.Error.{Error, Result, ok, err}
use open_compute_fabric_rs.Core.Registry as Registry
use open_compute_fabric_rs.Network.Controller.{
  NetworkBackend, NetworkController, fan_out, fan_out_to,
}

pub Result-cases {ℓ} :
    {A : Type ℓ} (r : Result A) → ((a : A) × (r ≡ ok a)) ⊎ ((e : Error) × (r ≡ err e))
Result-cases (ok a) = inl (a, refl)
Result-cases (err e) = inr (e, refl)

module _ {W : Type 0} (op : NetworkBackend W → W → W × Result (Unit {0})) where
  -- The world after every backend of the list has been programmed in turn.
  abbrev pub programmed : List (NetworkBackend W) → W → W
  programmed [] w = w
  programmed (b ∷ bs) w = programmed bs (op b w).0

  -- Every backend of the list, programmed in turn, succeeds.
  abbrev pub Succeed : List (NetworkBackend W) → W → Type 0
  Succeed [] w = Unit
  Succeed (b ∷ bs) w = ((op b w).1 ≡ ok tt) × Succeed bs (op b w).0

  -- All succeed, or the first that fails ends the call with its error.
  abbrev pub Outcome : List (NetworkBackend W) → W → W × Result (Unit {0}) → Type 0
  Outcome bs w r =
      (Succeed bs w × (r ≡ (programmed bs w, ok tt)))
      ⊎ ((before : List (NetworkBackend W)) × (b : NetworkBackend W) × (rest : List
            (NetworkBackend W))
          × (e : Error) × (bs ≡ before ++ b ∷ rest)
          × Succeed before w
          × ((op b (programmed before w)).1 ≡ err e)
          × (r ≡ ((op b (programmed before w)).0, err e)))

  fan_out_to_lem : (bs : List (NetworkBackend W)) (w : W) → Outcome bs w (fan_out_to op bs w)
  unfolding fan_out_to
  fan_out_to_lem [] w = inl (tt, refl)
  fan_out_to_lem (b ∷ bs) w = elim (Result-cases (op b w).1) [
    | inr (e, failed) ↦ inr ([], b, bs, e, refl, tt, failed, rw (failed, fan_out_to))
    | inl (u, done) ↦ elim (fan_out_to_lem bs (op b w).0) [
      | inl (all, r) ↦ inl ((done, all), rw (done, fan_out_to) r)
      | inr (before, c, rest, e, split, all, failed, r) ↦ inr (
        b ∷ before,
        c,
        rest,
        e,
        ap (λ z. b ∷ z) split,
        (done, all),
        failed,
        rw (done, fan_out_to) r,
      )
    ]
  ]

  -- A fan-out programs the backends in order. Either all succeed and so does it, or it stops at the
  -- first that fails, answers its error, and leaves the backends after it alone.
  pub fan_out_lem :
      (c : NetworkController W) (w : W)
      → Outcome (Registry.all_providers c.backends) w (fan_out c op w)
  unfolding fan_out
  fan_out_lem c w = fan_out_to_lem (Registry.all_providers c.backends) w
