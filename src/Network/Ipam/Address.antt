-- ===== src/Network/Ipam/Address.antt =====
-- crates/ocf-network/src/ipam.rs: the printing and parsing of addresses.
use open_compute_fabric_rs.Prelude.{
  ℕ, ◌/◌, ◌%◌, ◌^◌, ◌<◌, ◌≡◌, refl, ap, ◌∙◌, List, [], ◌∷◌, ◌++◌, none, some, arith, nat_beq,
  Bool-cases, Option-cases, inl, inr, length,
}
use open_compute_fabric_rs.Prelude.Text.{
  trim_end, trim_start, Text, trim, trim-All, split_on, split_on-append, split_on_last, parse_u8,
  print_u8, parse-print_u8, print_u8_kept, NotWhite, All-append, parse_u8-le, is_whitespace,
}
use open_compute_fabric_rs.Network.Ipam.{u32_mod, push_octet, parse_octets, parse_ipv4, format_ipv4}

dotted : ℕ → ℕ → ℕ → ℕ → Text
dotted a b c d = print_u8 a ++ b'.' ∷ (print_u8 b ++ b'.' ∷ (print_u8 c ++ b'.' ∷ print_u8 d))

parse_octets_step :
    (acc v : ℕ) (octets : List Text)
    → v < 256
    → parse_octets acc (print_u8 v ∷ octets) ≡ parse_octets (push_octet acc v) octets
unfolding parse_octets
parse_octets_step acc v octets h = rw (parse-print_u8 v h, parse_octets)

module _ (a b c d : ℕ) (ha : a < 256) (hb : b < 256) (hc : c < 256) (hd : d < 256) where
  trim-dotted : trim (dotted a b c d) ≡ dotted a b c d
  unfolding dotted is_whitespace
  trim-dotted = trim-All _ (
      All-append NotWhite (print_u8 a) _ (print_u8_kept a ha).0 (
        refl,
        All-append NotWhite (print_u8 b) _ (print_u8_kept b hb).0 (
          refl,
          All-append NotWhite (print_u8 c) _ (print_u8_kept c hc).0 (refl, (print_u8_kept d hd).0),
        ),
      ))

  split-dotted :
      split_on b'.' (dotted a b c d) ≡ print_u8 a ∷ print_u8 b ∷ print_u8 c ∷ print_u8 d ∷ []
  unfolding dotted
  split-dotted = rw (
    split_on-append b'.' (print_u8 a) _ (print_u8_kept a ha).1,
    split_on-append b'.' (print_u8 b) _ (print_u8_kept b hb).1,
    split_on-append b'.' (print_u8 c) _ (print_u8_kept c hc).1,
    split_on_last b'.' (print_u8 d) (print_u8_kept d hd).1,
  )

  parse-dotted :
      parse_ipv4 (dotted a b c d)
      ≡ some (push_octet (push_octet (push_octet (push_octet 0 a) b) c) d)
  unfolding parse_ipv4
  parse-dotted =
      rw (trim-dotted, split-dotted)
        (parse_octets_step 0 a (print_u8 b ∷ print_u8 c ∷ print_u8 d ∷ []) ha
          ∙ parse_octets_step (push_octet 0 a) b (print_u8 c ∷ print_u8 d ∷ []) hb
          ∙ parse_octets_step (push_octet (push_octet 0 a) b) c (print_u8 d ∷ []) hc
          ∙ parse_octets_step (push_octet (push_octet (push_octet 0 a) b) c) d [] hd)

-- Every 32-bit address prints to a text that parses back to it.
pub parse-format_ipv4 : (n : ℕ) → n < 2 ^ 32 → parse_ipv4 (format_ipv4 n) ≡ some n
unfolding format_ipv4 dotted
parse-format_ipv4 n h =
    parse-dotted (n / 2 ^ 24 % 256) (n / 2 ^ 16 % 256) (n / 2 ^ 8 % 256) (n % 256) (omega arith)
      (omega arith) (omega arith) (omega arith)
    ∙ ap some (omega arith)

parse_octets-lt :
    (acc : ℕ) (octets : List Text) {n : ℕ}
    → acc < u32_mod
    → parse_octets acc octets ≡ some n
    → n < u32_mod
unfolding parse_octets
parse_octets-lt acc [] h e = ground arith
parse_octets-lt acc (octet ∷ octets) h e = elim (Option-cases (parse_u8 octet)) [
  | inl bad ↦ absurd (cc (rw (bad, parse_octets) at e))
  | inr (v, good) ↦
      parse_octets-lt (push_octet acc v) octets (omega (arith, parse_u8-le octet v good))
        (rw (good, parse_octets) at e)
]

-- A parsed address is below 2 ^ 32.
pub parse_ipv4-lt : (s : Text) {n : ℕ} → parse_ipv4 s ≡ some n → n < u32_mod
unfolding parse_ipv4
parse_ipv4-lt s e = elim (Bool-cases (nat_beq (length (split_on b'.' (trim s))) 4)) [
  | inl four ↦ parse_octets-lt 0 (split_on b'.' (trim s)) (omega arith) (rw four at e)
  | inr other ↦ absurd (cc (rw other at e))
]

pub parse-empty : parse_ipv4 [] ≡ none
unfolding parse_ipv4 split_on trim trim_end trim_start
parse-empty = refl
