-- ===== src/Core/Effect.antt =====
-- Calls that act on a world `W` outside the model and may fail: the world is passed in and out, and
-- `?` ends a chain at its first failure, with the world as that call left it.
use open_compute_fabric_rs.Core.Error.{Result, ok, err}

abbrev pub Io : Type 0 → Type 0 → Type 0
Io W A = W → W × Result A

module _ {W : Type 0} where
  abbrev pub done : {A : Type 0} → A → Io W A
  done a w = (w, ok a)

  abbrev pub bound : {A B : Type 0} → W × Result A → (A → Io W B) → W × Result B
  bound (w, ok a) k = k a w
  bound (w, err e) k = (w, err e)

  infixl 5 ◌>>=◌ ◌>>◌
  abbrev pub ◌>>=◌ : {A B : Type 0} → Io W A → (A → Io W B) → Io W B
  ◌>>=◌ m k w = bound (m w) k

  abbrev pub ◌>>◌ : {B : Type 0} → Io W (Unit {0}) → Io W B → Io W B
  ◌>>◌ m k w = bound (m w) (λ _. k)

  -- A call whose failure is only logged.
  abbrev pub attempt : {A B : Type 0} → Io W A → B → Io W B
  attempt m b w = ((m w).0, ok b)

  -- A property of the world that a call keeps, whether it succeeds or not.
  abbrev pub Keeps {κ} : {A : Type 0} → (W → Type κ) → Io W A → Type κ
  Keeps P m = (w : W) → P w → P (m w).0

  pub >>=-Keeps {κ} :
      {A B : Type 0} (P : W → Type κ) (m : Io W A) (k : A → Io W B)
      → Keeps P m
      → ((a : A) → Keeps P (k a))
      → Keeps P (m >>= k)
  >>=-Keeps {A} {B} P m k hm hk w h = by_result (m w) (hm w h)
    where
      by_result : (r : W × Result A) → P r.0 → P (bound r k).0
      by_result (v, ok a) q = hk a v q
      by_result (v, err e) q = q
