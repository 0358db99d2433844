-- ===== src/Store/Memory.antt =====
-- crates/ocf-store/src/memory.rs: the store over one map, whose keys join a collection and a key. The
-- lock and the order of the map are left out.
pub mod Laws
use Prim.Native.Char.{Char, code}
use text.Mathlib.TextLemmas.{nil-append, cons-append, nil≢cons, append_cancel_left, cons-eq-cons}
use text.Mathlib.TextEquality.{Char-path}
use open_compute_fabric_rs.Prelude.{
  String, true, nat_beq, ◌&&◌, [], ◌∷◌, Option, none, some, ◌≡◌, ◌↔◌, refl, ap, sym, ◌∙◌, string_eq,
  arith, if◌then◌else◌, Option-cases, Bool-cases, inl, inr,
}
use open_compute_fabric_rs.Prelude.Assoc.{
  Assoc, lookup, insert, remove, IsUnique, insert-IsUnique, remove-IsUnique, lookup-insert,
  lookup-remove,
}
use open_compute_fabric_rs.Core.Error.{ok, concat}
use open_compute_fabric_rs.Store.{Bytes, is_plain, IsPlain, StateStore}

-- Every key of the map occurs once.
abbrev pub MemoryStateStore : Type 0
MemoryStateStore = (entries : Assoc String Bytes) × IsUnique entries

abbrev pub new_store : MemoryStateStore
new_store = ([], tt)

-- "{collection}\u{1f}"
abbrev pub prefix : String → String
prefix collection = concat collection "\u{1f}"

-- "{collection}\u{1f}{key}"
abbrev pub composite : String → String → String
composite collection key = concat (prefix collection) key

abbrev pub put : MemoryStateStore → String → String → Bytes → MemoryStateStore
put (entries, unique) collection key value = (
  insert (composite collection key) value entries,
  insert-IsUnique (composite collection key) value entries unique,
)

abbrev pub get : MemoryStateStore → String → String → Option Bytes
get s collection key = lookup (composite collection key) s.0

abbrev pub delete : MemoryStateStore → String → String → MemoryStateStore
delete (entries, unique) collection key = (
  remove (composite collection key) entries,
  remove-IsUnique (composite collection key) entries unique,
)

-- What follows a prefix.
unfoldable pub strip_prefix : String → String → Option String
strip_prefix String.[] s = some s
strip_prefix (String.◌∷◌ a p) String.[] = none
strip_prefix (String.◌∷◌ a p) (String.◌∷◌ b s) =
    let rest = strip_prefix p s in if nat_beq (code a) (code b) then rest else none

-- The entries under a prefix, without it.
unfoldable pub listed : String → Assoc String Bytes → Assoc String Bytes
unfolding strip_prefix
listed p [] = []
listed p ((k, v) ∷ entries) =
    let rest = listed p entries in
    elim (strip_prefix p k) [ none ↦ rest | some key ↦ (key, v) ∷ rest ]

abbrev pub list : MemoryStateStore → String → Assoc String Bytes
list s collection = listed (prefix collection) s.0
