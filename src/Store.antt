-- ===== src/Store.antt =====
-- crates/ocf-store/src/lib.rs: the contract `StateStore` of a namespaced key/value store. `get` is
-- what the store holds; the methods may fail, and the laws are what their documentation promises of
-- a call that succeeds, between collections without the character U+001F: the stores of the crate
-- join a collection and a key by it, so that another collection may share a slot with one of these.
pub mod Memory
use Prim.Native.Char.{code}
use open_compute_fabric_rs.Prelude.{
  ℕ, String, Bool, true, not, nat_beq, ◌&&◌, List, Option, none, some, ◌≡◌, string_eq,
  if◌then◌else◌,
}
use open_compute_fabric_rs.Prelude.Assoc.{Assoc, lookup, IsUnique}
use open_compute_fabric_rs.Core.Error.{Result, ok}

abbrev pub Bytes : Type 0
Bytes = List ℕ

-- U+001F does not occur.
unfoldable pub is_plain : String → Bool
is_plain String.[] = true
is_plain (String.◌∷◌ c s) = not (nat_beq (code c) 31) && is_plain s

abbrev pub IsPlain : String → Type 0
IsPlain collection = is_plain collection ≡ true

pub record StateStore : Type 1 where
  pub State : Type 0
  pub get : State → String → String → Option Bytes
  pub put : State → String → String → Bytes → Result State
  pub delete : State → String → String → Result State
  pub list : State → String → Result (Assoc String Bytes)
  pub get-put :
      (s s' : State) (collection key : String) (value : Bytes)
      → put s collection key value ≡ ok s'
      → IsPlain collection
      → (c k : String) → IsPlain c
      → get s' c k
        ≡ (if string_eq.beq collection c && string_eq.beq key k then some value else get s c k)
  pub get-delete :
      (s s' : State) (collection key : String)
      → delete s collection key ≡ ok s'
      → IsPlain collection
      → (c k : String) → IsPlain c
      → get s' c k ≡ (if string_eq.beq collection c && string_eq.beq key k then none else get s c k)
  pub list_get :
      (s : State) (collection : String) (entries : Assoc String Bytes)
      → list s collection ≡ ok entries
      → IsUnique entries × ((k : String) → lookup k entries ≡ get s collection k)
