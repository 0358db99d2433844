-- ===== src/Prelude/Utf8.antt =====
-- `String::from_utf8` of Rust's standard library: bytes to code points, or nothing where the bytes
-- are not well-formed UTF-8.
use Prim.Native.Nat.{ℕ, zero, suc, ◌+◌, ◌-◌, ◌*◌, ◌<◌}
use mathlib.Core.Path.{◌≡◌, refl}
use mathlib.Core.Bool.{◌&&◌}
use mathlib.Core.List.{List, [], ◌∷◌}
use mathlib.Core.Option.{Option, none, some, map}
use native.Mathlib.Omega.{arith}
use open_compute_fabric_rs.Prelude.Tests.{ltb, leb, nat_beq, if◌then◌else◌}
use open_compute_fabric_rs.Prelude.Lists.{All}

-- Between code points, or within one: how many bytes are still to come, the range of the next one,
-- and the bits so far.
pub data Pending : Type 0 where
  start : Pending
  within : (more lo hi bits : ℕ) → Pending

pub data Step : Type 0 where
  malformed : Step
  next : Pending → Step
  emit : ℕ → Step

-- The first byte of a code point. The ranges rule out overlong forms, surrogates and what lies
-- beyond U+10FFFF.
first_byte : ℕ → Step
first_byte b =
    if ltb b 0x80
    then emit b
    else if ltb b 0xc2
    then malformed
    else if ltb b 0xe0
    then next (within 0 0x80 0xbf (b - 0xc0))
    else if nat_beq b 0xe0
    then next (within 1 0xa0 0xbf 0)
    else if nat_beq b 0xed
    then next (within 1 0x80 0x9f 13)
    else if ltb b 0xf0
    then next (within 1 0x80 0xbf (b - 0xe0))
    else if nat_beq b 0xf0
    then next (within 2 0x90 0xbf 0)
    else if ltb b 0xf4
    then next (within 2 0x80 0xbf (b - 0xf0))
    else if nat_beq b 0xf4
    then next (within 2 0x80 0x8f 4)
    else malformed

next_byte : Pending → ℕ → Step
unfolding first_byte
next_byte start b = first_byte b
next_byte (within zero lo hi bits) b =
    if leb lo b && leb b hi then emit (bits * 64 + (b - 0x80)) else malformed
next_byte (within (suc more) lo hi bits) b =
    if leb lo b && leb b hi
    then next (within more 0x80 0xbf (bits * 64 + (b - 0x80)))
    else malformed

decode_from : Pending → List ℕ → Option (List ℕ)
unfolding next_byte
decode_from start [] = some []
decode_from (within more lo hi bits) [] = none
decode_from p (b ∷ bs) = elim (next_byte p b) [
  | malformed ↦ none
  | next q ↦ decode_from q bs
  | emit c ↦ map (λ cs. c ∷ cs) (decode_from start bs)
]

unfoldable pub from_utf8 : List ℕ → Option (List ℕ)
unfolding decode_from
from_utf8 bytes = decode_from start bytes

-- Bytes below 128 are their own code points.
pub from_utf8_ascii : (bytes : List ℕ) → All (λ b. b < 128) bytes → from_utf8 bytes ≡ some bytes
unfolding from_utf8 decode_from next_byte first_byte
from_utf8_ascii [] h = refl
from_utf8_ascii (b ∷ bytes) (lt, h) = ground (arith, from_utf8_ascii bytes h)
