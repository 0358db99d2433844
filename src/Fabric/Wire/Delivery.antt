-- ===== src/Fabric/Wire/Delivery.antt =====
-- crates/ocf-fabric/src/wire.rs: what a receiver accepts of the bytes on its socket.
use open_compute_fabric_rs.Prelude.{
  ℕ, zero, suc, ◌+◌, ◌%◌, ◌^◌, ◌<◌, ◌≡◌, ◌≢◌, ◌↔◌, ◌⊎◌, inl, inr, true, false, String, Bool-cases,
  refl, ap, sym, subst, ◌∙◌, Bool, [], ◌∷◌, ◌++◌, none, some, length, arith,
}
use mathlib.Core.List.{append-nil, append_assoc}
use open_compute_fabric_rs.Core.Error.{Result, ok, err, ok_of_bind}
use open_compute_fabric_rs.Fabric.Wire.{
  Bytes, or_noise, stream_chunk, Session, Zstd, read_frame, recv_opened, unpacked, recv_loop,
  recv_stream,
}
use open_compute_fabric_rs.Fabric.Wire.Frame.{length-append}
use open_compute_fabric_rs.Fabric.Wire.{Received}
use open_compute_fabric_rs.Fabric.Wire.Ends.{length-recv_opened, loop-Ends}

module _ (session : Session) (zstd : Zstd) (compress : Bool) where
  -- A record's bytes, once opened, are the body: inflated where the stream is compressed.
  abbrev pub Unpacks : Bytes → Bytes → Type 0
  Unpacks plain body =
      ((compress ≡ true) × (zstd.decompress plain stream_chunk ≡ inr body))
      ⊎ ((compress ≡ false) × (body ≡ plain))

  -- What the bytes of a socket deliver to a receiver: frames of records, each of which the session
  -- opens to a body that is not empty, then a frame that it opens to nothing. The indices are the
  -- receiver, the bytes on the socket, the receiver after, the bytes of the bodies and what is left.
  pub data Delivers : session.Receiver → Bytes → session.Receiver → Bytes → Bytes → Type 0 where
    ended :
        {r r' : session.Receiver} {wire sealed rest : Bytes}
        → read_frame wire ≡ ok (sealed, rest)
        → session.read_message r sealed ≡ inr (r', [])
        → Delivers r wire r' [] rest
    record_ :
        {r r1 r' : session.Receiver} {wire sealed mid body bytes rest : Bytes} {b : ℕ} {bs : Bytes}
        → read_frame wire ≡ ok (sealed, mid)
        → session.read_message r sealed ≡ inr (r1, b ∷ bs)
        → Unpacks (b ∷ bs) body
        → Delivers r1 mid r' bytes rest
        → Delivers r wire r' (body ++ bytes) rest

  or_noise_ok :
      {A : Type 0} (context : String) (x : String ⊎ A) {a : A}
      → or_noise context x ≡ ok a
      → x ≡ inr a
  or_noise_ok context (inl message) h = absurd (cc)
  or_noise_ok context (inr a) h = cc

  opened_iff :
      (r r' : session.Receiver) (wire plain rest : Bytes)
      → (recv_opened session r wire ≡ ok (r', plain, rest)) ↔ (
          (sealed : Bytes) × (read_frame wire ≡ ok (sealed, rest))
          × (session.read_message r sealed ≡ inr (r', plain)))
  unfolding recv_opened
  opened_iff r r' wire plain rest = (
    (λ h.
        let (frame, e1, h1) = ok_of_bind (read_frame wire) _ h in
        let (opened, e2, h2) = ok_of_bind (or_noise "open" (session.read_message r frame.0)) _ h1 in
        let e3 = or_noise_ok "open" (session.read_message r frame.0) e2 in (frame.0, cc, cc)),
    λ (sealed, e, o). rw (e, o) refl,
  )

  unpacked_iff :
      (plain body : Bytes) → (unpacked session zstd compress plain ≡ ok body) ↔ Unpacks plain body
  unfolding unpacked
  unpacked_iff plain body = elim (Bool-cases compress) [
    | inl packed ↦ (
      (λ h. inl (packed, or_noise_ok _ _ (rw (packed) at h))),
      λ h. elim h [ inl (_, e) ↦ rw (packed, e) refl | inr (off, _) ↦ absurd (cc) ],
    )
    | inr bare ↦ (
      (λ h. inr (bare, cc (rw (bare) at h))),
      λ h. elim h [ inl (on, _) ↦ absurd (cc) | inr (_, e) ↦ rw (bare, e) refl ],
    )
  ]

  -- What a run of the loop says of its socket: how the bytes came, and their number.
  abbrev pub Finished :
      session.Receiver → Bytes → Bytes → session.Receiver → Bytes → ℕ → Bytes → Type 0
  Finished r written wire r' bytes total rest =
      (plain : Bytes) × (bytes ≡ written ++ plain)
      × (total ≡ length bytes % 2 ^ 64)
      × Delivers r wire r' plain rest

  -- What the loop returns with that fuel says so.
  abbrev Finishes : ℕ → Type 0
  Finishes fuel =
      (r r' : session.Receiver) (written bytes wire rest : Bytes) (total count : ℕ)
      → total ≡ length written % 2 ^ 64
      → recv_loop session zstd compress fuel r written total wire
        ≡ some (ok (r', bytes, count, rest))
      → Finished r written wire r' bytes count rest

  Finished-body :
      (fuel : ℕ) (r r1 r' : session.Receiver) (written bytes wire mid rest : Bytes)
      (total count b : ℕ) (bs : Bytes) (u : Result Bytes)
      → Finishes fuel
      → total ≡ length written % 2 ^ 64
      → recv_opened session r wire ≡ ok (r1, b ∷ bs, mid)
      → unpacked session zstd compress (b ∷ bs) ≡ u
      → recv_loop session zstd compress (suc fuel) r written total wire
        ≡ some (ok (r', bytes, count, rest))
      → Finished r written wire r' bytes count rest
  unfolding recv_loop
  Finished-body fuel r r1 r' written bytes wire mid rest total count b bs (err e) later t o u h =
      absurd (cc (rw (o, u, recv_loop) at h))
  Finished-body fuel r r1 r' written bytes wire mid rest total count b bs (ok body) later t o u h =
      let size = length-append written body in
      let (plain, all, n, came) =
        later r1 r' (written ++ body) bytes mid rest ((total + length body) % 2 ^ 64) count
          (omega (arith, t, size)) (rw (o, u, recv_loop) at h) in
      let (sealed, f, m) = (opened_iff r r1 wire (b ∷ bs) mid).0 o in
      (
        body ++ plain,
        all ∙ append_assoc written body plain,
        n,
        record_ f m ((unpacked_iff (b ∷ bs) body).0 u) came,
      )

  Finished-frame :
      (fuel : ℕ) (r r' : session.Receiver) (written bytes wire rest : Bytes) (total count : ℕ)
      (f : Result (session.Receiver × Bytes × Bytes))
      → Finishes fuel
      → total ≡ length written % 2 ^ 64
      → recv_opened session r wire ≡ f
      → recv_loop session zstd compress (suc fuel) r written total wire
        ≡ some (ok (r', bytes, count, rest))
      → Finished r written wire r' bytes count rest
  unfolding recv_loop
  Finished-frame fuel r r' written bytes wire rest total count (err e) later t o h =
      absurd (cc (rw (o, recv_loop) at h))
  Finished-frame fuel r r' written bytes wire rest total count (ok (r1, b ∷ bs, mid)) later t o h =
      Finished-body fuel r r1 r' written bytes wire mid rest total count b bs
        (unpacked session zstd compress (b ∷ bs)) later t o refl h
  Finished-frame fuel r r' written bytes wire rest total count (ok (r1, [], mid)) later t o h =
      let got : ◌≡◌ {A = Received session zstd compress} (some (ok (r1, written, total, mid)))
          (some (ok (r', bytes, count, rest))) =
        rw (o, recv_loop) at h in
      let same_r : r1 ≡ r' = cc in
      let same_bytes : written ≡ bytes = cc in
      let same_count : total ≡ count = cc in
      let same_rest : mid ≡ rest = cc in
      let (sealed, f, m) = (opened_iff r r1 wire [] mid).0 o in
      (
        [],
        sym same_bytes ∙ sym (append-nil written),
        sym same_count ∙ t ∙ ap (λ x. length x % 2 ^ 64) same_bytes,
        ended (f ∙ ap (λ x. ok (sealed, x)) same_rest) (m ∙ ap (λ x. inr (x, [])) same_r),
      )

  loop-Finishes : (fuel : ℕ) → Finishes fuel
  unfolding recv_loop
  loop-Finishes zero r r' written bytes wire rest total count t h = absurd (cc)
  loop-Finishes (suc fuel) r r' written bytes wire rest total count t h =
      Finished-frame fuel r r' written bytes wire rest total count (recv_opened session r wire)
        (loop-Finishes fuel) t refl h

  loop-Delivers :
      (r r' : session.Receiver) (wire plain rest : Bytes)
      → Delivers r wire r' plain rest
      → (fuel : ℕ) (written : Bytes) (total : ℕ) → length wire < fuel
      → total ≡ length written % 2 ^ 64
      → recv_loop session zstd compress fuel r written total wire
        ≡ some (ok (r', written ++ plain, length (written ++ plain) % 2 ^ 64, rest))
  unfolding recv_loop
  loop-Delivers r r' wire plain rest d zero written total enough t = absurd (omega (arith, enough))
  loop-Delivers r r' wire plain rest (ended {sealed} f m) (suc fuel) written total enough t =
      let o = (opened_iff r r' wire [] rest).1 (sealed, f, m) in
      rw (recv_loop, o)
        (ap (λ x. some (ok (r', x, total, rest))) (sym (append-nil written))
          ∙ ap (λ x. some (ok (r', written ++ [], x, rest)))
              (t ∙ ap (λ x. length x % 2 ^ 64) (sym (append-nil written))))
  loop-Delivers r r' wire plain rest (record_ {r1} {sealed} {mid} {body} {bytes} {b} {bs} f m u d)
        (suc fuel) written total enough t =
      let o = (opened_iff r r1 wire (b ∷ bs) mid).1 (sealed, f, m) in
      let opened = (unpacked_iff (b ∷ bs) body).1 u in
      let size = length-recv_opened session zstd compress r r1 wire (b ∷ bs) mid o in
      let sum = length-append written body in
      let next =
        loop-Delivers r1 r' mid bytes rest d fuel (written ++ body) ((total + length body) % 2 ^ 64)
          (omega (arith, size, enough)) (omega (arith, t, sum)) in
      rw (recv_loop, o, opened)
        (next
          ∙ ap (λ x. some (ok (r', x, length x % 2 ^ 64, rest))) (append_assoc written body bytes))

  -- On the bytes that a peer sends before it closes, the fuel of recv_stream is enough, and it succeeds
  -- exactly if they are records that the session opens and, where the stream is compressed, the codec
  -- inflates, up to the end-of-stream record. What it writes is their bodies in order, it reports
  -- their length modulo 2^64, and it leaves what follows the end-of-stream record on the socket.
  pub recv_stream_iff :
      (r r' : session.Receiver) (wire bytes rest : Bytes) (total : ℕ)
      → (recv_stream session zstd compress r wire ≢ none)
        × ((recv_stream session zstd compress r wire ≡ some (ok (r', bytes, total, rest)))
            ↔ (Delivers r wire r' bytes rest × (total ≡ length bytes % 2 ^ 64)))
  unfolding recv_stream
  recv_stream_iff r r' wire bytes rest total = (
    loop-Ends session zstd compress (suc (length wire)) r [] 0 wire (omega arith),
    (
      (λ h.
          let (plain, same, count, d) =
            loop-Finishes (suc (length wire)) r r' [] bytes wire rest 0 total refl h in
          (subst (λ x. Delivers r wire r' x rest) (sym same) d, count)),
      λ (d, count).
          loop-Delivers r r' wire bytes rest d (suc (length wire)) [] 0 (omega arith) refl
          ∙ ap (λ x. some (ok (r', bytes, x, rest))) (sym count),
    ),
  )
