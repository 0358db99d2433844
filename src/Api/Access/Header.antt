-- ===== src/Api/Access/Header.antt =====
-- crates/ocf-api/src/authz.rs: the parsing of a Basic header.
use open_compute_fabric_rs.Prelude.{◌<◌, ◌≡◌, false, [], ◌∷◌, ◌++◌, some, arith, nat_beq, All}
use open_compute_fabric_rs.Prelude.Text.{Text, split_once, split_once-append, All-append}
use open_compute_fabric_rs.Prelude.Utf8.{from_utf8_ascii}
use open_compute_fabric_rs.Api.Base64.Roundtrip.{encode, trim-encode, base64_decode-encode}
use open_compute_fabric_rs.Api.Access.{
  Credentials, parse_authorization, by_scheme, basic_bytes, basic_text, texts_equal,
}

-- "Basic " and the encoding of `user:pass`.
pub basic_header : Text → Text → Text
basic_header user pass = b'B' ∷ b'a' ∷ b's' ∷ b'i' ∷ b'c' ∷ b' ' ∷ encode (user ++ b':' ∷ pass)

All-weaken : (s : Text) → All (λ c. c < 128) s → All (λ c. c < 256) s
All-weaken [] h = tt
All-weaken (c ∷ s) (lt, h) = (omega arith, All-weaken s h)

-- The Basic header of a user name without a colon and a password, both in ASCII, parses to just
-- these two.
pub parse_authorization-basic_header :
    (user pass : Text)
    → All (λ c. c < 128) user
    → All (λ c. c < 128) pass
    → All (λ c. nat_beq c b':' ≡ false) user
    → parse_authorization (basic_header user pass) ≡ some (Credentials.password user pass)
unfolding parse_authorization by_scheme basic_bytes basic_text basic_header split_once texts_equal
parse_authorization-basic_header user pass hu hp colon =
    let text = user ++ b':' ∷ pass in
    let ascii = All-append (λ c. c < 128) user (b':' ∷ pass) hu (omega arith, hp) in
    let bytes = All-weaken text ascii in
    rw (
      trim-encode text bytes,
      base64_decode-encode text bytes,
      from_utf8_ascii text ascii,
      split_once-append b':' user pass colon,
      basic_bytes,
      basic_text,
    )
