-- ===== src/Core/Error.antt =====
-- crates/ocf-core/src/error.rs: the error type, its codes, and `Result`.
use Prim.Native.String
use open_compute_fabric_rs.Prelude.{◌≡◌, refl, String, Bool, true, false, Option, none, some}

pub data Error : Type 0 where
  not_found : String → Error
  already_exists : String → Error
  invalid_argument : String → Error
  not_supported : String → Error
  unauthenticated : String → Error
  forbidden : String → Error
  conflict : String → Error
  provider : String → String → Error
  io : String → Error
  serde : String → Error
  internal : String → Error

unfoldable pub code : Error → String
code (not_found _) = "not_found"
code (already_exists _) = "already_exists"
code (invalid_argument _) = "invalid_argument"
code (not_supported _) = "not_supported"
code (unauthenticated _) = "unauthenticated"
code (forbidden _) = "forbidden"
code (conflict _) = "conflict"
code (provider _ _) = "provider_error"
code (io _) = "io_error"
code (serde _) = "serde_error"
code (internal _) = "internal"

pub data Result {ℓ} (A : Type ℓ) : Type ℓ where
  ok : A → Result A
  err : Error → Result A

-- `Option::ok_or_else`
abbrev pub ok_or {ℓ} : {A : Type ℓ} → Option A → Error → Result A
ok_or none e = err e
ok_or (some a) e = ok a

abbrev pub is_ok {ℓ} : {A : Type ℓ} → Result A → Bool
is_ok (ok _) = true
is_ok (err _) = false

-- The `?` operator.
infixl 5 ◌>>=◌
abbrev pub ◌>>=◌ {ℓ κ} : {A : Type ℓ} {B : Type κ} → Result A → (A → Result B) → Result B
err e >>= k = err e
ok a >>= k = k a

-- A chain that succeeds succeeded at its first link.
pub ok_of_bind {ℓ κ} :
    {A : Type ℓ} {B : Type κ} (m : Result A) (k : A → Result B) {b : B}
    → (m >>= k) ≡ ok b
    → (a : A) × (m ≡ ok a) × (k a ≡ ok b)
ok_of_bind (ok a) k h = (a, refl, h)
ok_of_bind (err e) k h = absurd (cc)

-- The pieces of a `format!` message, joined.
abbrev pub concat : String → String → String
concat a b = String.◌++◌ a b
