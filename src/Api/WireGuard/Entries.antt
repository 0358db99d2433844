-- ===== src/Api/WireGuard/Entries.antt =====
-- crates/ocf-api/src/controller.rs: the entries of a plan of WireGuard peers, by their keys.
use open_compute_fabric_rs.Prelude.{
  ◌≡◌, ◌≢◌, ◌⊎◌, inl, inr, ◌∙◌, refl, sym, ap, String, false, List, [], ◌∷◌, Option, none, some,
  string_eq, Bool-cases, Option-cases, find, find_sound, Member, here, there, Member-nil,
}
use open_compute_fabric_rs.Api.WireGuard.{WgPeerSpec, upsert}

abbrev pub fresh : String → WgPeerSpec
fresh key = record { public_key = key; endpoint = none; allowed_ips = []; keepalive = 0 }

abbrev pub spec_of : String → List WgPeerSpec → Option WgPeerSpec
spec_of k specs = find (λ s. string_eq.beq s.public_key k) specs

abbrev pub or_fresh : String → Option WgPeerSpec → WgPeerSpec
or_fresh k none = fresh k
or_fresh k (some s) = s

-- The entry of a key; a fresh one if the plan has none.
unfoldable pub entry : String → List WgPeerSpec → WgPeerSpec
entry k specs = or_fresh k (spec_of k specs)

-- No key has two entries.
abbrev pub KeysDistinct : List WgPeerSpec → Type 0
KeysDistinct [] = Unit
KeysDistinct (s ∷ specs) = (spec_of s.public_key specs ≡ none) × KeysDistinct specs

abbrev pub SameKey : (WgPeerSpec → WgPeerSpec) → Type 0
SameKey change = (s : WgPeerSpec) → (change s).public_key ≡ s.public_key

pub same_or_not : (a b : String) → (a ≡ b) ⊎ (a ≢ b)
same_or_not a b = elim (Bool-cases (string_eq.beq a b)) [
  | inl e ↦ inl ((string_eq.beq_iff a b).0 e)
  | inr e ↦ inr (λ q. cc (e, (string_eq.beq_iff a b).1 q))
]

pub differs : {a b : String} → a ≢ b → string_eq.beq a b ≡ false
differs {a} {b} n = elim (Bool-cases (string_eq.beq a b)) [
  | inl e ↦ absurd (n ((string_eq.beq_iff a b).0 e))
  | inr e ↦ e
]

spec_of_hit :
    {k : String} (s : WgPeerSpec) (specs : List WgPeerSpec)
    → s.public_key ≡ k
    → spec_of k (s ∷ specs) ≡ some s
unfolding find
spec_of_hit {k} s specs q = rw ((string_eq.beq_iff s.public_key k).1 q) refl

spec_of_miss :
    {k : String} (s : WgPeerSpec) (specs : List WgPeerSpec)
    → s.public_key ≢ k
    → spec_of k (s ∷ specs) ≡ spec_of k specs
unfolding find
spec_of_miss s specs n = rw (differs n) refl

module _ (change : WgPeerSpec → WgPeerSpec) (same : SameKey change) (key : String) where
  upsert_hit :
      (s : WgPeerSpec) (specs : List WgPeerSpec)
      → s.public_key ≡ key
      → upsert change key (s ∷ specs) ≡ change s ∷ specs
  unfolding upsert
  upsert_hit s specs q = rw ((string_eq.beq_iff s.public_key key).1 q) refl

  upsert_miss :
      (s : WgPeerSpec) (specs : List WgPeerSpec)
      → s.public_key ≢ key
      → upsert change key (s ∷ specs) ≡ s ∷ upsert change key specs
  unfolding upsert
  upsert_miss s specs n = rw (differs n) refl

  pub entry-upsert :
      (specs : List WgPeerSpec)
      → spec_of key (upsert change key specs) ≡ some (change (entry key specs))
  unfolding entry upsert find
  entry-upsert [] = spec_of_hit _ [] (same (fresh key))
  entry-upsert (s ∷ specs) = elim (same_or_not s.public_key key) [
    | inl q ↦ rw (upsert_hit s specs q) (
        spec_of_hit (change s) specs (same s ∙ q)
        ∙ ap (λ x. some (change (or_fresh key x))) (sym (spec_of_hit s specs q)))
    | inr n ↦ rw (upsert_miss s specs n) (
        spec_of_miss s (upsert change key specs) n
        ∙ entry-upsert specs
        ∙ ap (λ x. some (change (or_fresh key x))) (sym (spec_of_miss s specs n)))
  ]

  pub spec_of-upsert :
      {k : String} (specs : List WgPeerSpec)
      → key ≢ k
      → spec_of k (upsert change key specs) ≡ spec_of k specs
  unfolding upsert find
  spec_of-upsert [] n = spec_of_miss _ [] (λ q. n (sym (same (fresh key)) ∙ q))
  spec_of-upsert {k} (s ∷ specs) n = elim (same_or_not s.public_key key) [
    | inl q ↦ rw (upsert_hit s specs q) (
        spec_of_miss (change s) specs (λ r. n (cc (same s, q, r)))
        ∙ sym (spec_of_miss s specs (λ r. n (cc (q, r)))))
    | inr m ↦ rw (upsert_miss s specs m) (elim (same_or_not s.public_key k) [
      | inl r ↦ spec_of_hit s (upsert change key specs) r ∙ sym (spec_of_hit s specs r)
      | inr r ↦
          spec_of_miss s (upsert change key specs) r
          ∙ spec_of-upsert specs n
          ∙ sym (spec_of_miss s specs r)
    ])
  ]

  pub upsert-KeysDistinct :
      (specs : List WgPeerSpec) → KeysDistinct specs → KeysDistinct (upsert change key specs)
  unfolding upsert find
  upsert-KeysDistinct [] d = (refl, tt)
  upsert-KeysDistinct (s ∷ specs) d = elim (same_or_not s.public_key key) [
    | inl q ↦ rw (upsert_hit s specs q) (rw (same s) d.0, d.1)
    | inr n ↦
        rw (upsert_miss s specs n)
          (spec_of-upsert specs (λ q. n (sym q)) ∙ d.0, upsert-KeysDistinct specs d.1)
  ]

  pub entry_same-upsert :
      (specs : List WgPeerSpec) → entry key (upsert change key specs) ≡ change (entry key specs)
  unfolding entry
  entry_same-upsert specs = ap (or_fresh key) (entry-upsert specs)

  pub entry_other-upsert :
      {k : String} (specs : List WgPeerSpec)
      → key ≢ k
      → entry k (upsert change key specs) ≡ entry k specs
  unfolding entry
  entry_other-upsert {k} specs n = ap (or_fresh k) (spec_of-upsert specs n)

pub entry_of_Member :
    {s : WgPeerSpec} (specs : List WgPeerSpec)
    → KeysDistinct specs
    → Member s specs
    → entry s.public_key specs ≡ s
unfolding entry find
entry_of_Member {s} specs d m = ap (or_fresh s.public_key) (found specs d m)
  where
    found :
        (xs : List WgPeerSpec) → KeysDistinct xs → Member s xs → spec_of s.public_key xs ≡ some s
    found [] d m = elim m [ ]
    found (x ∷ xs) d (here e) = rw (sym e) (spec_of_hit s xs refl)
    found (x ∷ xs) d (there m) = elim (same_or_not x.public_key s.public_key) [
      | inl q ↦ absurd (cc (d.0, found xs d.1 m, ap (λ k. spec_of k xs) q))
      | inr n ↦ spec_of_miss x xs n ∙ found xs d.1 m
    ]

-- The entry of a key that lists an address is an entry of the plan.
pub Member_of_entry :
    {c : String} (k : String) (specs : List WgPeerSpec)
    → Member c (entry k specs).allowed_ips
    → Member (entry k specs) specs × ((entry k specs).public_key ≡ k)
unfolding entry
Member_of_entry k specs m = elim (Option-cases (spec_of k specs)) [
  | inl missing ↦ absurd (Member-nil (rw missing at m))
  | inr (s, e) ↦
      let (known, same) = find_sound (λ x. string_eq.beq x.public_key k) specs e in
      rw e (known, (string_eq.beq_iff s.public_key k).0 same)
]
