-- ===== src/Prelude/Sets.antt =====
-- A `BTreeSet` that is only tested for membership, as a list in which nothing is put twice.
use mathlib.Core.Path.{◌≡◌, ap, sym, subst}
use native.Mathlib.Omega.{arith}
use mathlib.Core.Logic.{◌↔◌, ◌⊎◌, inl, inr}
use mathlib.Core.Bool.{Bool, true, ◌||◌}
use mathlib.Core.List.{List, [], ◌∷◌, ◌++◌}
use open_compute_fabric_rs.Prelude.Tests.{if◌then◌else◌, Bool-cases, Eq, beq_refl}
use open_compute_fabric_rs.Prelude.Lists.{
  any, any_sound, any_complete, Member, here, there, Member-cons, Member-append, Member-append_left,
  Member-append_right,
}

module _ {ℓ} {A : Type ℓ} ⦃e : Eq A⦄ where
  unfoldable pub contains : A → List A → Bool
  contains a xs = any (λ x. e.beq x a) xs

  unfoldable pub add : A → List A → List A
  add a xs = if contains a xs then xs else xs ++ a ∷ []

  unfoldable pub extend : List A → List A → List A
  extend xs [] = xs
  extend xs (y ∷ ys) = extend (add y xs) ys

  pub contains_iff : (a : A) (xs : List A) → (contains a xs ≡ true) ↔ Member a xs
  unfolding contains
  contains_iff a xs = (
    λ h. let r = any_sound (λ x. e.beq x a) xs h in subst_Member ((e.beq_iff r.0 a).0 r.2) r.1,
    λ m. any_complete (λ x. e.beq x a) m (beq_refl a),
  )
    where
      subst_Member : {x : A} → x ≡ a → Member x xs → Member a xs
      subst_Member q m = subst (λ z. Member z xs) q m

  pub Member-add : (a : A) (xs : List A) {x : A} → Member x (add a xs) ↔ ((x ≡ a) ⊎ Member x xs)
  unfolding add
  Member-add a xs {x} = elim (Bool-cases (contains a xs)) [
    | inl old ↦ rw old (
      (λ m. inr m),
      λ s. elim s [
        | inl q ↦ subst (λ z. Member z xs) (sym q) ((contains_iff a xs).0 old)
        | inr m ↦ m
      ],
    )
    | inr new ↦ rw new (
      (λ m. elim (Member-append xs m) [ inl n ↦ inr n | inr n ↦ inl (only n) ]),
      λ s. elim s [
        | inl q ↦ Member-append_right xs (here q)
        | inr m ↦ Member-append_left (a ∷ []) m
      ],
    )
  ]
    where
      only : Member x (a ∷ []) → x ≡ a
      only m = elim (Member-cons m) [ inl q ↦ q | inr n ↦ elim n [ ] ]

  pub Member-extend :
      (xs ys : List A) {x : A} → Member x (extend xs ys) ↔ (Member x xs ⊎ Member x ys)
  unfolding extend
  Member-extend xs [] = ((λ m. inl m), λ s. elim s [ inl m ↦ m | inr n ↦ elim n [ ] ])
  Member-extend xs (y ∷ ys) {x} = (
    (λ m. elim ((Member-extend (add y xs) ys).0 m) [
      | inl n ↦ elim ((Member-add y xs).0 n) [ inl q ↦ inr (here q) | inr k ↦ inl k ]
      | inr n ↦ inr (there n)
    ]),
    λ s. elim s [
      | inl m ↦ (Member-extend (add y xs) ys).1 (inl ((Member-add y xs).1 (inr m)))
      | inr n ↦ elim (Member-cons n) [
        | inl q ↦ (Member-extend (add y xs) ys).1 (inl ((Member-add y xs).1 (inl q)))
        | inr k ↦ (Member-extend (add y xs) ys).1 (inr k)
      ]
    ],
  )

  contains-snoc : (x a : A) (xs : List A) → contains x (xs ++ a ∷ []) ≡ (e.beq a x || contains x xs)
  unfolding contains any
  contains-snoc x a [] = ground arith
  contains-snoc x a (y ∷ xs) = ground (arith, contains-snoc x a xs)

  pub contains-add : (x a : A) (xs : List A) → contains x (add a xs) ≡ (e.beq a x || contains x xs)
  unfolding add
  contains-add x a xs =
      ground (arith, contains-snoc x a xs, e.beq_iff a x, ap (λ z. contains z xs), beq_refl x)
