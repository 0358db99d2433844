-- ===== src/Prelude/Text.antt =====
-- Text that the program takes apart, as its code points: `trim`, `split`, the parsing of a `u8` and
-- the printing of one, as the standard library of Rust documents them.
use Prim.Native.Nat.{ℕ, ◌+◌, ◌-◌, ◌*◌, ◌/◌, ◌%◌, ◌<◌, ◌≤◌}
use mathlib.Core.Path.{◌≡◌, refl}
use mathlib.Core.Bool.{Bool, true, false, ◌&&◌, ◌||◌}
use mathlib.Core.List.{List, [], ◌∷◌, ◌++◌}
use mathlib.Core.Option.{Option, none, some}
use native.Mathlib.Omega.{arith}
use open_compute_fabric_rs.Prelude.Tests.{ltb, leb, nat_beq, if◌then◌else◌}
use open_compute_fabric_rs.Prelude.Lists.{All, all}
use open_compute_fabric_rs.Prelude.Table.{all_below, all_below_sound}

abbrev pub Text : Type 0
Text = List ℕ

-- `char::is_whitespace`: the code points with the property White_Space.
unfoldable pub is_whitespace : ℕ → Bool
is_whitespace c =
    leb 9 c && leb c 13
    || nat_beq c 0x20
    || nat_beq c 0x85
    || nat_beq c 0xa0
    || nat_beq c 0x1680
    || leb 0x2000 c && leb c 0x200a
    || leb 0x2028 c && leb c 0x2029
    || nat_beq c 0x202f
    || nat_beq c 0x205f
    || nat_beq c 0x3000

unfoldable pub trim_start : Text → Text
trim_start [] = []
trim_start (c ∷ cs) = let rest = trim_start cs in if is_whitespace c then rest else c ∷ cs

-- A character before the trimmed rest: it goes too where it is white and nothing follows.
before_trimmed : ℕ → Text → Text
before_trimmed c [] = if is_whitespace c then [] else c ∷ []
before_trimmed c (d ∷ ds) = c ∷ d ∷ ds

unfoldable pub trim_end : Text → Text
unfolding before_trimmed
trim_end [] = []
trim_end (c ∷ cs) = before_trimmed c (trim_end cs)

unfoldable pub trim : Text → Text
trim s = trim_end (trim_start s)

-- A character before the first part.
onto_first : ℕ → List Text → List Text
onto_first c [] = (c ∷ []) ∷ []
onto_first c (p ∷ ps) = (c ∷ p) ∷ ps

-- `split(sep)`
unfoldable pub split_on : ℕ → Text → List Text
unfolding onto_first
split_on sep [] = [] ∷ []
split_on sep (c ∷ cs) =
    let parts = split_on sep cs in if nat_beq c sep then [] ∷ parts else onto_first c parts

-- `split_once(sep)`
unfoldable pub split_once : ℕ → Text → Option (Text × Text)
split_once sep [] = none
split_once sep (c ∷ cs) =
    let rest = split_once sep cs in
    if nat_beq c sep
    then some ([], cs)
    else elim rest [ none ↦ none | some (before, after) ↦ some (c ∷ before, after) ]

abbrev is_digit : ℕ → Bool
is_digit c = leb 48 c && leb c 57

-- The digits of a `u8`, with the overflow checks of `checked_mul` and `checked_add`.
u8_digits : ℕ → Text → Option ℕ
u8_digits acc [] = some acc
u8_digits acc (c ∷ cs) =
    let rest = u8_digits (acc * 10 + (c - 48)) cs in
    if is_digit c && leb (acc * 10 + (c - 48)) 255 then rest else none

-- `str::parse::<u8>`: a leading plus sign is allowed, and a sign alone is not.
unfoldable pub parse_u8 : Text → Option ℕ
unfolding u8_digits
parse_u8 [] = none
parse_u8 (c ∷ []) = if nat_beq c b'+' then none else u8_digits 0 (c ∷ [])
parse_u8 (c ∷ d ∷ cs) = if nat_beq c b'+' then u8_digits 0 (d ∷ cs) else u8_digits 0 (c ∷ d ∷ cs)

-- The decimal digits of a number below 1000.
unfoldable pub print_u8 : ℕ → Text
print_u8 n =
    if ltb n 10
    then (48 + n) ∷ []
    else if ltb n 100
    then (48 + n / 10) ∷ (48 + n % 10) ∷ []
    else (48 + n / 100) ∷ (48 + n / 10 % 10) ∷ (48 + n % 10) ∷ []

-- A character that neither `trim` nor `split_on sep` takes away.
abbrev pub IsKept : ℕ → ℕ → Type 0
IsKept sep c = (is_whitespace c ≡ false) × (nat_beq c sep ≡ false)

abbrev pub NotWhite : ℕ → Type 0
NotWhite c = is_whitespace c ≡ false

pub trim_start-All : (s : Text) → All NotWhite s → trim_start s ≡ s
unfolding trim_start
trim_start-All [] h = refl
trim_start-All (c ∷ cs) h = rw h.0

pub trim_end-All : (s : Text) → All NotWhite s → trim_end s ≡ s
unfolding trim_end
trim_end-All [] h = refl
trim_end-All (c ∷ []) h = rw h.0
trim_end-All (c ∷ d ∷ cs) h = rw (trim_end-All (d ∷ cs) h.1)

pub trim-All : (s : Text) → All NotWhite s → trim s ≡ s
unfolding trim
trim-All s h = rw (trim_start-All s h) (trim_end-All s h)

pub split_on_last :
    (sep : ℕ) (p : Text) → All (λ c. nat_beq c sep ≡ false) p → split_on sep p ≡ p ∷ []
unfolding split_on
split_on_last sep [] h = refl
split_on_last sep (c ∷ p) h = rw (h.0, split_on_last sep p h.1)

pub split_on-append :
    (sep : ℕ) (p rest : Text)
    → All (λ c. nat_beq c sep ≡ false) p
    → split_on sep (p ++ sep ∷ rest) ≡ p ∷ split_on sep rest
unfolding split_on
split_on-append sep [] rest h = ground arith
split_on-append sep (c ∷ p) rest h = rw (h.0, split_on-append sep p rest h.1)

-- What holds of a printed byte, checked value by value.
abbrev found_is : Option ℕ → ℕ → Bool
found_is none n = false
found_is (some m) n = nat_beq m n

byte_ok : ℕ → Bool
byte_ok n = found_is (parse_u8 (print_u8 n)) n && all is_digit (print_u8 n)

byte_table : all_below 256 byte_ok ≡ true
unfolding all_below byte_ok parse_u8 print_u8 all
byte_table = refl

pub parse-print_u8 : (n : ℕ) → n < 256 → parse_u8 (print_u8 n) ≡ some n
unfolding byte_ok
parse-print_u8 n h = let b = all_below_sound 256 byte_ok n byte_table h in ground arith

digits-IsKept :
    (s : Text) → all is_digit s ≡ true → All NotWhite s × All (λ c. nat_beq c b'.' ≡ false) s
unfolding all is_whitespace
digits-IsKept [] h = (tt, tt)
digits-IsKept (c ∷ s) h =
    let ih = digits-IsKept s (ground arith) in ((ground arith, ih.0), (ground arith, ih.1))

pub print_u8_kept :
    (n : ℕ) → n < 256 → All NotWhite (print_u8 n) × All (λ c. nat_beq c b'.' ≡ false) (print_u8 n)
unfolding byte_ok
print_u8_kept n h =
    let b = all_below_sound 256 byte_ok n byte_table h in digits-IsKept (print_u8 n) (ground arith)

pub All-append {κ} : (P : ℕ → Type κ) (s t : Text) → All P s → All P t → All P (s ++ t)
All-append P [] t h k = k
All-append P (c ∷ s) t h k = (h.0, All-append P s t h.1 k)

u8_digits-le : (acc : ℕ) (s : Text) (v : ℕ) → acc ≤ 255 → u8_digits acc s ≡ some v → v ≤ 255
unfolding u8_digits
u8_digits-le acc [] v h e = ground arith
u8_digits-le acc (c ∷ s) v h e = ground (arith, u8_digits-le (acc * 10 + (c - 48)) s v)

pub parse_u8-le : (s : Text) (v : ℕ) → parse_u8 s ≡ some v → v ≤ 255
unfolding parse_u8
parse_u8-le [] v e = absurd (cc)
parse_u8-le (c ∷ []) v e = ground (arith, u8_digits-le 0 (c ∷ []) v)
parse_u8-le (c ∷ d ∷ s) v e = ground (arith, u8_digits-le 0 (d ∷ s) v, u8_digits-le 0 (c ∷ d ∷ s) v)

pub split_once-append :
    (sep : ℕ) (s t : Text)
    → All (λ c. nat_beq c sep ≡ false) s
    → split_once sep (s ++ sep ∷ t) ≡ some (s, t)
unfolding split_once
split_once-append sep [] t h = ground arith
split_once-append sep (c ∷ s) t (hc, h) = rw (hc, split_once-append sep s t h)
