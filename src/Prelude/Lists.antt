-- ===== src/Prelude/Lists.antt =====
-- Lists: the library's functions over the native numbers, searches by a Boolean test, and the
-- predicates by recursion that the proofs use.
use Prim.Native.Nat.{ℕ, zero, suc, ◌<◌, ◌≤◌}
use mathlib.Core.Path.{◌≡◌, refl, ap, sym, subst, ◌∙◌}
use mathlib.Core.Logic.{◌↔◌, ◌⊎◌, inl, inr}
use mathlib.Core.Bool.{Bool, true, false, ◌||◌, ◌&&◌}
use mathlib.Core.List.{List, [], ◌∷◌, ◌++◌, map}
use mathlib.Core.Option.{Option, none, some}
use native.Mathlib.Omega.{arith}
use open_compute_fabric_rs.Prelude.Tests.{if◌then◌else◌, Bool-cases}

module _ {ℓ} {A : Type ℓ} where
  abbrev pub length : List A → ℕ
  length [] = 0
  length (x ∷ xs) = suc (length xs)

  abbrev pub get_elem? : List A → ℕ → Option A
  get_elem? [] i = none
  get_elem? (x ∷ xs) zero = some x
  get_elem? (x ∷ xs) (suc i) = get_elem? xs i

  -- `iter().any(p)`, `iter().all(p)`, `iter().filter(p).collect()` and `iter().find(p)`
  unfoldable pub any : (A → Bool) → List A → Bool
  any p [] = false
  any p (x ∷ xs) = p x || any p xs

  unfoldable pub all : (A → Bool) → List A → Bool
  all p [] = true
  all p (x ∷ xs) = p x && all p xs

  unfoldable pub filter : (A → Bool) → List A → List A
  filter p [] = []
  filter p (x ∷ xs) = let rest = filter p xs in if p x then x ∷ rest else rest

  unfoldable pub find : (A → Bool) → List A → Option A
  find p [] = none
  find p (x ∷ xs) = let rest = find p xs in if p x then some x else rest

  abbrev pub is_empty : List A → Bool
  is_empty [] = true
  is_empty (x ∷ xs) = false

  -- Where an element stands in a list; unlike the library's `Mem`, it can be taken apart into data.
  pub data Member (a : A) : List A → Type ℓ where
    here : {x : A} {xs : List A} → a ≡ x → Member a (x ∷ xs)
    there : {x : A} {xs : List A} → Member a xs → Member a (x ∷ xs)

  pub Member-nil : {a : A} → ¬ (Member a [])
  Member-nil m = elim m [ ]

  pub Member-cons : {a x : A} {xs : List A} → Member a (x ∷ xs) → (a ≡ x) ⊎ Member a xs
  Member-cons (here e) = inl e
  Member-cons (there m) = inr m

  pub Member-append_left : {a : A} {xs : List A} (ys : List A) → Member a xs → Member a (xs ++ ys)
  Member-append_left ys (here e) = here e
  Member-append_left ys (there m) = there (Member-append_left ys m)

  pub Member-append_right : {a : A} (xs : List A) {ys : List A} → Member a ys → Member a (xs ++ ys)
  Member-append_right [] m = m
  Member-append_right (x ∷ xs) m = there (Member-append_right xs m)

  pub Member-append :
      {a : A} (xs : List A) {ys : List A} → Member a (xs ++ ys) → Member a xs ⊎ Member a ys
  Member-append [] m = inr m
  Member-append (x ∷ xs) (here e) = inl (here e)
  Member-append (x ∷ xs) (there m) = elim (Member-append xs m) [
    | inl n ↦ inl (there n)
    | inr n ↦ inr n
  ]

  pub Member-get_elem? : (xs : List A) (i : ℕ) {a : A} → get_elem? xs i ≡ some a → Member a xs
  Member-get_elem? [] i h = absurd (cc)
  Member-get_elem? (x ∷ xs) zero h = here (cc)
  Member-get_elem? (x ∷ xs) (suc i) h = there (Member-get_elem? xs i h)

  pub get_elem?_total : (xs : List A) (i : ℕ) → i < length xs → (a : A) × (get_elem? xs i ≡ some a)
  get_elem?_total [] i h = elim h [ ]
  get_elem?_total (x ∷ xs) zero h = (x, refl)
  get_elem?_total (x ∷ xs) (suc i) h = get_elem?_total xs i (omega arith)

  pub cons_of_not_empty :
      (xs : List A) → is_empty xs ≡ false → (x : A) × (rest : List A) × (xs ≡ x ∷ rest)
  cons_of_not_empty [] h = absurd (cc)
  cons_of_not_empty (x ∷ xs) h = (x, xs, refl)

  pub not_empty_of_Member : {a : A} {xs : List A} → Member a xs → is_empty xs ≡ false
  not_empty_of_Member (here e) = refl
  not_empty_of_Member (there m) = refl

  pub length_of_Member : {a : A} {xs : List A} → Member a xs → 0 < length xs
  length_of_Member (here e) = omega arith
  length_of_Member (there m) = omega arith

  abbrev pub All {κ} : (A → Type κ) → List A → Type κ
  All P [] = Unit
  All P (x ∷ xs) = P x × All P xs

  pub All-Member {κ} : (P : A → Type κ) {a : A} (xs : List A) → Member a xs → All P xs → P a
  All-Member P [] m h = elim m [ ]
  All-Member P (x ∷ xs) (here e) h = subst P (sym e) h.0
  All-Member P (x ∷ xs) (there m) h = All-Member P xs m h.1

module _ {ℓ κ} {A : Type ℓ} {B : Type κ} where
  pub Member-map : {a : A} {xs : List A} (f : A → B) → Member a xs → Member (f a) (map f xs)
  Member-map f (here e) = here (ap f e)
  Member-map f (there m) = there (Member-map f m)

  pub Member-of_map :
      (f : A → B) (xs : List A) {b : B} → Member b (map f xs) → (a : A) × Member a xs × (b ≡ f a)
  Member-of_map f [] m = elim m [ ]
  Member-of_map f (x ∷ xs) (here e) = (x, here refl, e)
  Member-of_map f (x ∷ xs) (there m) = let r = Member-of_map f xs m in (r.0, there r.1, r.2)

module _ {ℓ} {A : Type ℓ} (p : A → Bool) where
  -- A value of `xs` that passes the test.
  abbrev pub Passing : List A → Type ℓ
  Passing xs = (a : A) × Member a xs × (p a ≡ true)

  pub any_sound : (xs : List A) → any p xs ≡ true → Passing xs
  unfolding any
  any_sound [] h = absurd (cc)
  any_sound (x ∷ xs) h = elim (Bool-cases (p x)) [
    | inl e ↦ (x, here refl, e)
    | inr e ↦ let later = any_sound xs (ground arith) in (later.0, there later.1, later.2)
  ]

  pub any_complete : {a : A} {xs : List A} → Member a xs → p a ≡ true → any p xs ≡ true
  unfolding any
  any_complete (here e) h = ground arith
  any_complete (there m) h = ground (arith, any_complete m h)

  pub any_iff : (xs : List A) → (any p xs ≡ true) ↔ Passing xs
  any_iff xs = (any_sound xs, λ t. any_complete t.1 t.2)

  pub Member-filter : {a : A} {xs : List A} → Member a xs → p a ≡ true → Member a (filter p xs)
  unfolding filter
  Member-filter {a} (here {x} e) h = rw ((ap p (sym e) ∙ h)) (here e)
  Member-filter {a} (there {x} m) h = elim (Bool-cases (p x)) [
    | inl e ↦ rw e (there (Member-filter m h))
    | inr e ↦ rw e (Member-filter m h)
  ]

  pub Member-of_filter : {a : A} (xs : List A) → Member a (filter p xs) → Member a xs × (p a ≡ true)
  unfolding filter
  Member-of_filter [] m = elim m [ ]
  Member-of_filter {a} (x ∷ xs) m = elim (Bool-cases (p x)) [
    | inl e ↦ elim (Member-cons (rw e at m)) [
      | inl q ↦ (here q, ap p q ∙ e)
      | inr n ↦ let r = Member-of_filter xs n in (there r.0, r.1)
    ]
    | inr e ↦ let r = Member-of_filter xs (rw e at m) in (there r.0, r.1)
  ]

  pub find_sound : (xs : List A) {a : A} → find p xs ≡ some a → Member a xs × (p a ≡ true)
  unfolding find
  find_sound [] h = absurd (cc)
  find_sound (x ∷ xs) {a} h = elim (Bool-cases (p x)) [
    | inl e ↦ let q : x ≡ a = ground arith in (here (sym q), ap p (sym q) ∙ e)
    | inr e ↦ let r = find_sound xs (rw e at h) in (there r.0, r.1)
  ]

  pub find-none : {a : A} {xs : List A} → find p xs ≡ none → Member a xs → p a ≡ false
  unfolding find
  find-none h (here e) = ground arith
  find-none {a} h (there {x} {xs} m) =
      let rest : find p xs ≡ none = ground arith in find-none rest m

-- A test that fails wherever another does keeps no more elements, and fewer if it drops one more.
module _ {ℓ} {A : Type ℓ} (p q : A → Bool) (weaker : (a : A) → q a ≡ true → p a ≡ true) where
  pub length-filter_mono : (xs : List A) → length (filter q xs) ≤ length (filter p xs)
  unfolding filter
  length-filter_mono [] = omega arith
  length-filter_mono (x ∷ xs) = ground (arith, length-filter_mono xs, weaker x)

  pub length-filter_drop :
      {u : A} (xs : List A)
      → Member u xs
      → p u ≡ true
      → q u ≡ false
      → suc (length (filter q xs)) ≤ length (filter p xs)
  unfolding filter
  length-filter_drop [] m hp hq = absurd (Member-nil m)
  length-filter_drop (x ∷ xs) (here e) hp hq = ground (arith, length-filter_mono xs, ap p e, ap q e)
  length-filter_drop (x ∷ xs) (there m) hp hq =
      ground (arith, length-filter_drop xs m hp hq, weaker x)

pub length-filter {ℓ} : {A : Type ℓ} (p : A → Bool) (xs : List A) → length (filter p xs) ≤ length xs
unfolding filter
length-filter p [] = omega arith
length-filter p (x ∷ xs) = ground (arith, length-filter p xs)
