-- ===== src/Fabric/Wire/Frame.antt =====
-- crates/ocf-fabric/src/wire.rs: a frame that was written is read back, whatever follows it.
use open_compute_fabric_rs.Prelude.{
  ℕ, zero, suc, ◌+◌, ◌*◌, ◌/◌, ◌%◌, ◌^◌, ◌≤◌, ◌<◌, ◌≡◌, refl, sym, ap, inl, inr, false, [], ◌∷◌,
  ◌++◌, some, length, arith, ltb, Bool-cases, Option-cases,
}
use open_compute_fabric_rs.Core.Error.{ok, err, invalid_argument}
use open_compute_fabric_rs.Fabric.Wire.{Bytes, max_noise_msg, write_frame, read_exact, read_frame}

read_exact-append :
    (bytes rest : Bytes) → read_exact (length bytes) (bytes ++ rest) ≡ some (bytes, rest)
unfolding read_exact
read_exact-append [] rest = refl
read_exact-append (b ∷ bytes) rest = rw (read_exact-append bytes rest) refl

read_exact-length :
    (n : ℕ) (wire : Bytes) {bytes rest : Bytes}
    → read_exact n wire ≡ some (bytes, rest)
    → length wire ≡ n + length rest
unfolding read_exact
read_exact-length zero wire {rest} h =
    let q : wire ≡ rest = cc in let l = ap length q in omega (arith, l)
read_exact-length (suc n) [] h = absurd (cc)
read_exact-length (suc n) (b ∷ wire) {rest} h = elim (Option-cases (read_exact n wire)) [
  | inl short ↦ absurd (cc (rw (short, read_exact) at h))
  | inr ((bytes', rest'), e) ↦
      let q : rest' ≡ rest = cc (rw (e, read_exact) at h) in
      let k = read_exact-length n wire e in let l = ap length q in omega (arith, k, l)
]

framed :
    (body rest : Bytes)
    → length body ≤ 65535
    → read_frame ((length body % 2 ^ 16 / 256 ∷ length body % 2 ^ 16 % 256 ∷ body) ++ rest)
      ≡ ok (body, rest)
unfolding read_frame
framed body rest h =
    let whole : length body % 2 ^ 16 / 256 * 256 + length body % 2 ^ 16 % 256 ≡ length body =
      omega (arith, h) in
    rw (read_frame, whole, read_exact-append body rest) refl

-- What a frame is that was written.
pub write_frame_ok :
    (body frame : Bytes)
    → write_frame body ≡ ok frame
    → (length frame ≡ 2 + length body)
      × ((rest : Bytes) → read_frame (frame ++ rest) ≡ ok (body, rest))
unfolding write_frame
write_frame_ok body frame h = elim (Bool-cases (ltb max_noise_msg (length body))) [
  | inl long ↦ absurd (cc (rw (long, write_frame) at h))
  | inr fits ↦
      let q : (length body % 2 ^ 16 / 256 ∷ length body % 2 ^ 16 % 256 ∷ body) ≡ frame =
        cc (rw (fits, write_frame) at h) in
      (
        let l = ap length q in omega (arith, l),
        λ rest. rw (sym q) (framed body rest (ground (arith, fits))),
      )
]

-- A body of at most 65535 bytes is written as two bytes more, and reading gives it back and leaves what
-- follows; a longer one is refused.
pub read_frame-write_frame :
    (body : Bytes)
    → (length body ≤ 65535
        → (frame : Bytes) × (write_frame body ≡ ok frame)
          × (length frame ≡ 2 + length body)
          × ((rest : Bytes) → read_frame (frame ++ rest) ≡ ok (body, rest)))
      × (65535 < length body
          → write_frame body ≡ err (invalid_argument "noise frame exceeds 65535 bytes"))
unfolding write_frame
read_frame-write_frame body = (
  (λ h.
      let fits : ltb max_noise_msg (length body) ≡ false = ground (arith, h) in
      (
        length body % 2 ^ 16 / 256 ∷ length body % 2 ^ 16 % 256 ∷ body,
        rw fits refl,
        omega arith,
        λ rest. framed body rest h,
      )),
  λ h. ground (arith, h),
)

-- Reading a frame takes at least two bytes from the socket.
pub read_frame-length :
    (wire : Bytes) {bytes rest : Bytes}
    → read_frame wire ≡ ok (bytes, rest)
    → 2 + length rest ≤ length wire
unfolding read_frame
read_frame-length [] h = absurd (cc)
read_frame-length (a ∷ []) h = absurd (cc)
read_frame-length (a ∷ b ∷ wire) {rest} h = elim (Option-cases (read_exact (a * 256 + b) wire)) [
  | inl short ↦ absurd (cc (rw (short, read_frame) at h))
  | inr ((bytes', rest'), e) ↦
      let q : rest' ≡ rest = cc (rw (e, read_frame) at h) in
      let k = read_exact-length (a * 256 + b) wire e in let l = ap length q in omega (arith, k, l)
]

pub length-append : (xs ys : Bytes) → length (xs ++ ys) ≡ length xs + length ys
length-append [] ys = omega arith
length-append (x ∷ xs) ys = let e = length-append xs ys in omega (arith, e)
