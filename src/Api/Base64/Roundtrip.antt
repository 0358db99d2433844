-- ===== src/Api/Base64/Roundtrip.antt =====
-- crates/ocf-api/src/authz.rs: `base64_decode` against the encoding of RFC 4648.
use open_compute_fabric_rs.Prelude.{
  ℕ, ◌+◌, ◌-◌, ◌*◌, ◌/◌, ◌%◌, ◌^◌, ◌<◌, ◌≡◌, refl, ap, ◌∙◌, Bool, true, false, ◌&&◌, not, List, [],
  ◌∷◌, ◌++◌, none, some, arith, leb, ltb, nat_beq, if◌then◌else◌, All,
}
use open_compute_fabric_rs.Prelude.Table.{all_below, all_below_sound}
use open_compute_fabric_rs.Prelude.Text.{Text, trim, NotWhite, trim-All, All-append, is_whitespace}
use open_compute_fabric_rs.Api.Base64.{
  val, trim_padding, before_padding, push_six, bits_left, onto_decoded, decode_loop, base64_decode,
}

-- The letter of a sextet.
pub letter : ℕ → ℕ
letter n =
    if ltb n 26
    then b'A' + n
    else if ltb n 52
    then b'a' + (n - 26)
    else if ltb n 62
    then b'0' + (n - 52)
    else if nat_beq n 62
    then b'+'
    else b'/'

-- The letters of the bytes, three bytes to four letters.
pub letters : List ℕ → Text
letters [] = []
letters (a ∷ []) = letter (a / 4) ∷ letter (a % 4 * 16) ∷ []
letters (a ∷ b ∷ []) = letter (a / 4) ∷ letter (a % 4 * 16 + b / 16) ∷ letter (b % 16 * 4) ∷ []
letters (a ∷ b ∷ c ∷ bytes) =
    letter (a / 4)
    ∷ letter (a % 4 * 16 + b / 16)
    ∷ letter (b % 16 * 4 + c / 64)
    ∷ letter (c % 64)
    ∷ letters bytes

-- The padding to a whole group of four letters.
pub padding : List ℕ → Text
padding [] = []
padding (a ∷ []) = b'=' ∷ b'=' ∷ []
padding (a ∷ b ∷ []) = b'=' ∷ []
padding (a ∷ b ∷ c ∷ bytes) = padding bytes

pub encode : List ℕ → Text
encode bytes = letters bytes ++ padding bytes

letter_ok : ℕ → Bool
letter_ok n = elim (val (letter n)) [
  | none ↦ false
  | some v ↦ nat_beq v n && not (is_whitespace (letter n)) && not (nat_beq (letter n) b'=')
]

letter_table : all_below 64 letter_ok ≡ true
unfolding all_below letter_ok val letter is_whitespace
letter_table = refl

letter_facts :
    (n : ℕ)
    → n < 64
    → (val (letter n) ≡ some n) × NotWhite (letter n) × (nat_beq (letter n) b'=' ≡ false)
unfolding letter_ok
letter_facts n h =
    let t = all_below_sound 64 letter_ok n letter_table h in
    (ground arith, ground arith, ground arith)

decode_step :
    (buf bits c v : ℕ) (cs : Text)
    → val c ≡ some v
    → decode_loop buf bits (c ∷ cs) ≡ (
        if leb 8 (bits + 6)
        then onto_decoded
            (push_six buf v / 2 ^ bits_left bits % 256)
            (decode_loop (push_six buf v) (bits_left bits) cs)
        else decode_loop (push_six buf v) (bits_left bits) cs)
unfolding decode_loop
decode_step buf bits c v cs h = rw (h, decode_loop)

first_byte :
    (buf x y : ℕ) → x < 64 → y < 64 → push_six (push_six buf x) y / 2 ^ 4 % 256 ≡ x * 4 + y / 16
first_byte buf x y hx hy = omega arith

second_byte :
    (buf y z : ℕ)
    → y < 64
    → z < 64
    → push_six (push_six buf y) z / 2 ^ 2 % 256 ≡ y % 16 * 16 + z / 4
second_byte buf y z hy hz = omega arith

third_byte :
    (buf z w : ℕ) → z < 64 → w < 64 → push_six (push_six buf z) w / 2 ^ 0 % 256 ≡ z % 4 * 64 + w
third_byte buf z w hz hw = omega arith

module _ (buf x y : ℕ) (hx : x < 64) (hy : y < 64) where
  decode_two :
      (cs : Text)
      → decode_loop buf 0 (letter x ∷ letter y ∷ cs)
        ≡ onto_decoded (x * 4 + y / 16) (decode_loop (push_six (push_six buf x) y) 4 cs)
  decode_two cs =
      decode_step buf 0 (letter x) x (letter y ∷ cs) (letter_facts x hx).0
      ∙ decode_step (push_six buf x) 6 (letter y) y cs (letter_facts y hy).0
      ∙ ap (λ o. onto_decoded o (decode_loop (push_six (push_six buf x) y) 4 cs))
          (first_byte buf x y hx hy)

  module _ (z : ℕ) (hz : z < 64) where
    decode_three :
        (cs : Text)
        → decode_loop buf 0 (letter x ∷ letter y ∷ letter z ∷ cs)
          ≡ onto_decoded (x * 4 + y / 16) (
              onto_decoded
                (y % 16 * 16 + z / 4)
                (decode_loop (push_six (push_six (push_six buf x) y) z) 2 cs))
    decode_three cs =
        decode_two (letter z ∷ cs)
        ∙ ap (onto_decoded (x * 4 + y / 16)) (
            decode_step (push_six (push_six buf x) y) 4 (letter z) z cs (letter_facts z hz).0
            ∙ ap (λ o. onto_decoded o (decode_loop (push_six (push_six (push_six buf x) y) z) 2 cs))
                (second_byte (push_six buf x) y z hy hz))

    decode_four :
        (w : ℕ) (cs : Text)
        → w < 64
        → decode_loop buf 0 (letter x ∷ letter y ∷ letter z ∷ letter w ∷ cs)
          ≡ onto_decoded (x * 4 + y / 16) (
              onto_decoded (y % 16 * 16 + z / 4) (
                onto_decoded
                  (z % 4 * 64 + w)
                  (decode_loop (push_six (push_six (push_six (push_six buf x) y) z) w) 0 cs)))
    decode_four w cs hw =
        decode_three (letter w ∷ cs)
        ∙ ap (λ r. onto_decoded (x * 4 + y / 16) (onto_decoded (y % 16 * 16 + z / 4) r))
            (decode_step (push_six (push_six (push_six buf x) y) z) 2 (letter w) w cs
                (letter_facts w hw).0
              ∙ ap
                  (λ o.
                    onto_decoded o
                      (decode_loop (push_six (push_six (push_six (push_six buf x) y) z) w) 0 cs))
                  (third_byte (push_six (push_six buf x) y) z w hz hw))

decode-letters :
    (buf : ℕ) (bytes : List ℕ)
    → All (λ b. b < 256) bytes
    → decode_loop buf 0 (letters bytes) ≡ some bytes
unfolding letters onto_decoded
decode-letters buf [] h = unfold decode_loop in refl
decode-letters buf (a ∷ []) (ha, h) =
    decode_two buf (a / 4) (a % 4 * 16) (omega arith) (omega arith) []
    ∙ unfold decode_loop in ap (λ (n : ℕ). some (n ∷ [])) (omega arith)
decode-letters buf (a ∷ b ∷ []) (ha, (hb, h)) =
    decode_three buf (a / 4) (a % 4 * 16 + b / 16) (omega arith) (omega arith) (b % 16 * 4)
      (omega arith) []
    ∙ unfold decode_loop in
      let p : a / 4 * 4 + (a % 4 * 16 + b / 16) / 16 ≡ a = omega arith in
      let q : (a % 4 * 16 + b / 16) % 16 * 16 + b % 16 * 4 / 4 ≡ b = omega arith in rw (p, q)
decode-letters buf (a ∷ b ∷ c ∷ bytes) (ha, (hb, (hc, h))) =
    decode_four buf (a / 4) (a % 4 * 16 + b / 16) (omega arith) (omega arith) (b % 16 * 4 + c / 64)
      (omega arith) (c % 64) (letters bytes) (omega arith)
    ∙ (let p : a / 4 * 4 + (a % 4 * 16 + b / 16) / 16 ≡ a = omega arith in
        let q : (a % 4 * 16 + b / 16) % 16 * 16 + (b % 16 * 4 + c / 64) / 4 ≡ b = omega arith in
        let u : (b % 16 * 4 + c / 64) % 4 * 64 + c % 64 ≡ c = omega arith in
        let rest =
          decode-letters
            (push_six
              (push_six (push_six (push_six buf (a / 4)) (a % 4 * 16 + b / 16))
                (b % 16 * 4 + c / 64))
              (c % 64))
            bytes h in
        rw (p, q, u, rest))

letters-All :
    (P : ℕ → Type 0) (bytes : List ℕ)
    → ((n : ℕ) → n < 64 → P (letter n))
    → All (λ b. b < 256) bytes
    → All P (letters bytes)
unfolding letters
letters-All P [] p h = tt
letters-All P (a ∷ []) p (ha, h) = (p _ (omega arith), (p _ (omega arith), tt))
letters-All P (a ∷ b ∷ []) p (ha, (hb, h)) =
    (p _ (omega arith), (p _ (omega arith), (p _ (omega arith), tt)))
letters-All P (a ∷ b ∷ c ∷ bytes) p (ha, (hb, (hc, h))) = (
  p _ (omega arith),
  (p _ (omega arith), (p _ (omega arith), (p _ (omega arith), letters-All P bytes p h))),
)

padding-NotWhite : (bytes : List ℕ) → All NotWhite (padding bytes)
unfolding padding is_whitespace
padding-NotWhite [] = tt
padding-NotWhite (a ∷ []) = (refl, (refl, tt))
padding-NotWhite (a ∷ b ∷ []) = (refl, tt)
padding-NotWhite (a ∷ b ∷ c ∷ bytes) = padding-NotWhite bytes

trim_padding-padding : (bytes : List ℕ) → trim_padding (padding bytes) ≡ []
unfolding padding trim_padding before_padding
trim_padding-padding [] = refl
trim_padding-padding (a ∷ []) = refl
trim_padding-padding (a ∷ b ∷ []) = refl
trim_padding-padding (a ∷ b ∷ c ∷ bytes) = trim_padding-padding bytes

before_padding_lem : (c : ℕ) (cs : Text) → nat_beq c b'=' ≡ false → before_padding c cs ≡ c ∷ cs
unfolding before_padding
before_padding_lem c [] h = rw h
before_padding_lem c (d ∷ ds) h = refl

trim_padding-append :
    (s pad : Text)
    → All (λ c. nat_beq c b'=' ≡ false) s
    → trim_padding pad ≡ []
    → trim_padding (s ++ pad) ≡ s
unfolding trim_padding
trim_padding-append [] pad h e = e
trim_padding-append (c ∷ s) pad (hc, h) e =
    ap (before_padding c) (trim_padding-append s pad h e) ∙ before_padding_lem c s hc

pub trim-encode : (bytes : List ℕ) → All (λ b. b < 256) bytes → trim (encode bytes) ≡ encode bytes
unfolding encode
trim-encode bytes h = trim-All (letters bytes ++ padding bytes) (
    All-append NotWhite (letters bytes) (padding bytes)
      (letters-All NotWhite bytes (λ n lt. (letter_facts n lt).1) h) (padding-NotWhite bytes))

-- The encoding of RFC 4648, with its padding, decodes to the bytes that it encodes.
pub base64_decode-encode :
    (bytes : List ℕ) → All (λ b. b < 256) bytes → base64_decode (encode bytes) ≡ some bytes
unfolding base64_decode encode
base64_decode-encode bytes h =
    let stripped =
      trim_padding-append (letters bytes) (padding bytes)
        (letters-All (λ c. nat_beq c b'=' ≡ false) bytes (λ n lt. (letter_facts n lt).2) h)
        (trim_padding-padding bytes) in
    ap (λ t. decode_loop 0 0 (trim_padding t)) (trim-encode bytes h)
    ∙ ap (decode_loop 0 0) stripped
    ∙ decode-letters 0 bytes h
