-- ===== src/Fabric/Wire/Ends.antt =====
-- crates/ocf-fabric/src/wire.rs: the loop of a receiver ends.
use open_compute_fabric_rs.Prelude.{
  ℕ, zero, suc, ◌+◌, ◌%◌, ◌^◌, ◌≤◌, ◌<◌, ◌≡◌, ◌≢◌, refl, ap, Bool, [], ◌∷◌, ◌++◌, none, some,
  length, arith,
}
use open_compute_fabric_rs.Core.Error.{Result, ok, err, ok_of_bind}
use open_compute_fabric_rs.Fabric.Wire.{
  Bytes, or_noise, Session, Zstd, read_frame, recv_opened, unpacked, recv_loop,
}
use open_compute_fabric_rs.Fabric.Wire.Frame.{read_frame-length}

module _ (session : Session) (zstd : Zstd) (compress : Bool) where
  pub length-recv_opened :
      (r r' : session.Receiver) (wire plain rest : Bytes)
      → recv_opened session r wire ≡ ok (r', plain, rest)
      → 2 + length rest ≤ length wire
  unfolding recv_opened
  length-recv_opened r r' wire plain rest h =
      let (frame, e1, h1) = ok_of_bind (read_frame wire) _ h in
      let (opened, e2, h2) = ok_of_bind (or_noise "open" (session.read_message r frame.0)) _ h1 in
      let same : frame.1 ≡ rest = cc in
      let size = read_frame-length wire e1 in
      let size' = ap length same in omega (arith, size, size')

  -- With that fuel the loop returns a result on any shorter wire.
  abbrev pub Ends : ℕ → Type 0
  Ends fuel =
      (r : session.Receiver) (written : Bytes) (total : ℕ) (wire : Bytes)
      → length wire < fuel
      → recv_loop session zstd compress fuel r written total wire ≢ none

  by_body :
      (fuel : ℕ) (r : session.Receiver) (written : Bytes) (total : ℕ) (body : Result Bytes)
      (rest : Bytes)
      → Ends fuel
      → length rest < fuel
      → (elim body [
        | err e ↦ some (err e)
        | ok plain ↦
            recv_loop session zstd compress fuel r
              (written ++ plain)
              ((total + length plain) % 2 ^ 64)
              rest
      ])
        ≢ none
  by_body fuel r written total (err e) rest ends enough h = cc
  by_body fuel r written total (ok plain) rest ends enough h = ends r _ _ rest enough h

  by_frame :
      (fuel : ℕ) (r : session.Receiver) (written : Bytes) (total : ℕ) (wire : Bytes)
      (f : Result (session.Receiver × Bytes × Bytes))
      → Ends fuel
      → length wire < suc fuel
      → recv_opened session r wire ≡ f
      → recv_loop session zstd compress (suc fuel) r written total wire ≢ none
  unfolding recv_loop
  by_frame fuel r written total wire (err e) ends enough q h = cc (rw (q, recv_loop) at h)
  by_frame fuel r written total wire (ok (r', [], rest)) ends enough q h =
      cc (rw (q, recv_loop) at h)
  by_frame fuel r written total wire (ok (r', b ∷ bs, rest)) ends enough q h =
      let size = length-recv_opened r r' wire (b ∷ bs) rest q in
      by_body fuel r' written total (unpacked session zstd compress (b ∷ bs)) rest ends
        (omega (arith, size, enough)) (rw (q, recv_loop) at h)

  pub loop-Ends : (fuel : ℕ) → Ends fuel
  loop-Ends zero r written total wire enough = absurd (omega (arith, enough))
  loop-Ends (suc fuel) r written total wire enough =
      by_frame fuel r written total wire (recv_opened session r wire) (loop-Ends fuel) enough refl
