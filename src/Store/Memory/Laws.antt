-- ===== src/Store/Memory/Laws.antt =====
-- crates/ocf-store/src/memory.rs: the in-memory store keeps the contract of a store.
use Prim.Native.Char.{Char, code}
use text.Mathlib.TextLemmas.{nil-append, cons-append, nil≢cons, append_cancel_left, cons-eq-cons}
use text.Mathlib.TextEquality.{Char-path}
use open_compute_fabric_rs.Prelude.{
  String, true, nat_beq, ◌&&◌, [], ◌∷◌, none, some, ◌≡◌, ◌↔◌, refl, ap, sym, ◌∙◌, string_eq, arith,
  if◌then◌else◌, Option-cases, Bool-cases, inl, inr,
}
use open_compute_fabric_rs.Prelude.Assoc.{Assoc, lookup, IsUnique, lookup-insert, lookup-remove}
use open_compute_fabric_rs.Core.Error.{ok, concat}
use open_compute_fabric_rs.Store.{Bytes, is_plain, IsPlain, StateStore}
use open_compute_fabric_rs.Store.Memory.{
  MemoryStateStore, prefix, composite, put, get, delete, strip_prefix, listed, list,
}

code_iff : (a b : Char) → (nat_beq (code a) (code b) ≡ true) ↔ (a ≡ b)
code_iff a b = ((λ h. Char-path a b (ground arith)), λ h. let e = ap code h in ground (arith, e))

strip_prefix_iff : (p s k : String) → (strip_prefix p s ≡ some k) ↔ (s ≡ concat p k)
unfolding strip_prefix
strip_prefix_iff String.[] s k =
    let e = nil-append k in ((λ h. let q : s ≡ k = cc in q ∙ sym e), λ h. ap some (h ∙ e))
strip_prefix_iff (String.◌∷◌ a p) String.[] k =
    let e = cons-append a p k in ((λ h. absurd (cc)), λ h. absurd (nil≢cons (h ∙ e)))
strip_prefix_iff (String.◌∷◌ a p) (String.◌∷◌ b s) k =
    let e = cons-append a p k in
    let rest = strip_prefix_iff p s k in
    let same = code_iff a b in
    (
      (λ h. elim (Bool-cases (nat_beq (code a) (code b))) [
        | inl hit ↦ cons-eq-cons.1 (sym (same.0 hit), rest.0 (rw (hit) at h)) ∙ sym e
        | inr miss ↦ absurd (cc (rw (miss) at h))
      ]),
      λ h. let (first, later) = cons-eq-cons.0 (h ∙ e) in rw (same.1 (sym first)) (rest.1 later),
    )

separated : (key : String) → composite String.[] key ≡ String.◌∷◌ "\u{1f}" key
separated key =
    rw (nil-append "\u{1f}")
      (cons-append "\u{1f}" String.[] key ∙ ap (String.◌∷◌ "\u{1f}") (nil-append key))

composite-cons :
    (a : Char) (collection key : String)
    → composite (String.◌∷◌ a collection) key ≡ String.◌∷◌ a (composite collection key)
composite-cons a collection key =
    rw (cons-append a collection "\u{1f}") (cons-append a (prefix collection) key)

-- Between collections without the separator, a slot is that of one collection and one key.
composite_inj :
    (c d k j : String) → IsPlain c → IsPlain d → composite c k ≡ composite d j → (c ≡ d) × (k ≡ j)
unfolding is_plain
composite_inj String.[] String.[] k j p q h =
    (refl, (cons-eq-cons.0 (sym (separated k) ∙ h ∙ separated j)).1)
composite_inj String.[] (String.◌∷◌ b d) k j p q h =
    let (first, later) = cons-eq-cons.0 (sym (separated k) ∙ h ∙ composite-cons b d j) in
    let n = ap code first in absurd (ground (arith, n, q))
composite_inj (String.◌∷◌ a c) String.[] k j p q h =
    let (first, later) = cons-eq-cons.0 (sym (composite-cons a c k) ∙ h ∙ separated j) in
    let n = ap code first in absurd (ground (arith, n, p))
composite_inj (String.◌∷◌ a c) (String.◌∷◌ b d) k j p q h =
    let (first, later) = cons-eq-cons.0 (sym (composite-cons a c k) ∙ h ∙ composite-cons b d j) in
    let (same, rest) = composite_inj c d k j (ground arith) (ground arith) later in
    (cons-eq-cons.1 (first, same), rest)

composite_beq :
    (c d k j : String)
    → IsPlain c
    → IsPlain d
    → string_eq.beq (composite c k) (composite d j) ≡ (string_eq.beq c d && string_eq.beq k j)
composite_beq c d k j p q = elim (Bool-cases (string_eq.beq (composite c k) (composite d j))) [
  | inl hit ↦
      let (a, b) = composite_inj c d k j p q ((string_eq.beq_iff _ _).0 hit) in
      hit ∙ sym (rw ((string_eq.beq_iff c d).1 a, (string_eq.beq_iff k j).1 b) refl)
  | inr miss ↦ elim (Bool-cases (string_eq.beq c d)) [
    | inr off ↦ miss ∙ sym (rw off refl)
    | inl on ↦ elim (Bool-cases (string_eq.beq k j)) [
      | inr off ↦ miss ∙ sym (rw (on, off) refl)
      | inl on' ↦
          let a = (string_eq.beq_iff c d).0 on in
          let b = (string_eq.beq_iff k j).0 on' in
          let e : composite c k ≡ composite d j = cc in
          let hit = (string_eq.beq_iff (composite c k) (composite d j)).1 e in absurd (cc)
    ]
  ]
]

lookup-listed :
    (p k : String) (entries : Assoc String Bytes)
    → lookup k (listed p entries) ≡ lookup (concat p k) entries
unfolding listed lookup
lookup-listed p k [] = refl
lookup-listed p k ((j, v) ∷ entries) =
    let rest = lookup-listed p k entries in
    elim (Option-cases (strip_prefix p j)) [
      | inl absent ↦ rw (lookup, listed, absent) (rest ∙ sym (missed absent))
      | inr (i, found) ↦
          rw (lookup, listed, found) (by_key i ((strip_prefix_iff p j i).0 found) rest)
    ]
  where
    missed :
        strip_prefix p j ≡ none
        → (if string_eq.beq j (concat p k) then some v else lookup (concat p k) entries)
          ≡ lookup (concat p k) entries
    missed absent = elim (Bool-cases (string_eq.beq j (concat p k))) [
      | inr off ↦ rw off refl
      | inl on ↦
          let found = (strip_prefix_iff p j k).1 ((string_eq.beq_iff j (concat p k)).0 on) in
          absurd (cc)
    ]

    by_key :
        (i : String)
        → j ≡ concat p i
        → lookup k (listed p entries) ≡ lookup (concat p k) entries
        → (if string_eq.beq i k then some v else lookup k (listed p entries))
          ≡ (if string_eq.beq j (concat p k) then some v else lookup (concat p k) entries)
    by_key i e rest = elim (Bool-cases (string_eq.beq i k)) [
      | inl on ↦
          let same = (string_eq.beq_iff i k).0 on in
          let hit = (string_eq.beq_iff j (concat p k)).1 (e ∙ ap (concat p) same) in
          rw (on, hit) refl
      | inr off ↦ elim (Bool-cases (string_eq.beq j (concat p k))) [
        | inl hit ↦
            let same =
              append_cancel_left p i k (sym e ∙ (string_eq.beq_iff j (concat p k)).0 hit) in
            let on = (string_eq.beq_iff i k).1 same in absurd (cc)
        | inr miss ↦ rw (off, miss) rest
      ]
    ]

listed-IsUnique :
    (p : String) (entries : Assoc String Bytes) → IsUnique entries → IsUnique (listed p entries)
unfolding listed
listed-IsUnique p [] u = tt
listed-IsUnique p ((j, v) ∷ entries) u =
    let rest = listed-IsUnique p entries u.1 in
    elim (Option-cases (strip_prefix p j)) [
      | inl absent ↦ rw (listed, absent) rest
      | inr (i, found) ↦
          rw (listed, found)
            (
              lookup-listed p i entries
                  ∙ ap (λ x. lookup x entries) (sym ((strip_prefix_iff p j i).0 found))
                  ∙ u.0,
              rest,
            )
    ]

pub get-put :
    (s s' : MemoryStateStore) (collection key : String) (value : Bytes)
    → ok (put s collection key value) ≡ ok s'
    → IsPlain collection
    → (c k : String) → IsPlain c
    → get s' c k
      ≡ (if string_eq.beq collection c && string_eq.beq key k then some value else get s c k)
get-put s s' collection key value h p c k q =
    let same : put s collection key value ≡ s' = cc in
    ap (λ x. get x c k) (sym same)
    ∙ lookup-insert (composite collection key) (composite c k) value s.0
    ∙ ap (λ b. if b then some value else get s c k) (composite_beq collection c key k p q)

pub get-delete :
    (s s' : MemoryStateStore) (collection key : String)
    → ok (delete s collection key) ≡ ok s'
    → IsPlain collection
    → (c k : String) → IsPlain c
    → get s' c k ≡ (if string_eq.beq collection c && string_eq.beq key k then none else get s c k)
get-delete s s' collection key h p c k q =
    let same : delete s collection key ≡ s' = cc in
    ap (λ x. get x c k) (sym same)
    ∙ lookup-remove (composite collection key) (composite c k) s.0
    ∙ ap (λ b. if b then none else get s c k) (composite_beq collection c key k p q)

pub list_get :
    (s : MemoryStateStore) (collection : String) (entries : Assoc String Bytes)
    → ok (list s collection) ≡ ok entries
    → IsUnique entries × ((k : String) → lookup k entries ≡ get s collection k)
list_get s collection entries h =
    let same : list s collection ≡ entries = cc in
    rw (sym same)
      (listed-IsUnique (prefix collection) s.0 s.1, λ k. lookup-listed (prefix collection) k s.0)

-- The store keeps the contract.
abbrev pub memory : StateStore
memory = record {
  State = MemoryStateStore;
  get = get;
  put = λ s collection key value. ok (put s collection key value);
  delete = λ s collection key. ok (delete s collection key);
  list = λ s collection. ok (list s collection);
  get-put = get-put;
  get-delete = get-delete;
  list_get = list_get;
}
