-- ===== src/Api/Base64.antt =====
-- crates/ocf-api/src/authz.rs: `base64_decode`, on the code points of its argument: one that is not
-- a single byte is no letter of the alphabet, nor is any byte of it. A `u32` keeps its wrap-around.
pub mod Roundtrip
use open_compute_fabric_rs.Prelude.{
  ℕ, ◌+◌, ◌-◌, ◌*◌, ◌/◌, ◌%◌, ◌^◌, Bool, true, false, ◌&&◌, List, [], ◌∷◌, Option, none, some, leb,
  nat_beq, if◌then◌else◌,
}
use open_compute_fabric_rs.Prelude.Text.{Text, trim}

unfoldable pub val : ℕ → Option ℕ
val c =
    if leb b'A' c && leb c b'Z'
    then some (c - b'A')
    else if leb b'a' c && leb c b'z'
    then some (c - b'a' + 26)
    else if leb b'0' c && leb c b'9'
    then some (c - b'0' + 52)
    else if nat_beq c b'+'
    then some 62
    else if nat_beq c b'/'
    then some 63
    else none

-- `trim_end_matches('=')`: a character before the trimmed rest.
before_padding : ℕ → Text → Text
before_padding c [] = if nat_beq c b'=' then [] else c ∷ []
before_padding c (d ∷ ds) = c ∷ d ∷ ds

trim_padding : Text → Text
unfolding before_padding
trim_padding [] = []
trim_padding (c ∷ cs) = before_padding c (trim_padding cs)

-- `(buf << 6) | v`
abbrev pub push_six : ℕ → ℕ → ℕ
push_six buf v = buf * 2 ^ 6 % 2 ^ 32 + v

-- The bits not yet output after six more: eight of them are output where there are so many.
abbrev pub bits_left : ℕ → ℕ
bits_left bits = if leb 8 (bits + 6) then bits + 6 - 8 else bits + 6

onto_decoded : ℕ → Option (List ℕ) → Option (List ℕ)
onto_decoded byte none = none
onto_decoded byte (some out) = some (byte ∷ out)

-- The loop over the characters, with the buffer and the number of its bits not yet output; what it
-- has output already is put in front by the caller.
unfoldable pub decode_loop : ℕ → ℕ → Text → Option (List ℕ)
unfolding onto_decoded val
decode_loop buf bits [] = some []
decode_loop buf bits (c ∷ cs) = elim (val c) [
  | none ↦ none
  | some v ↦
      let buf' = push_six buf v in
      let rest = decode_loop buf' (bits_left bits) cs in
      if leb 8 (bits + 6) then onto_decoded (buf' / 2 ^ bits_left bits % 256) rest else rest
]

unfoldable pub base64_decode : Text → Option (List ℕ)
unfolding trim_padding
base64_decode s = decode_loop 0 0 (trim_padding (trim s))
