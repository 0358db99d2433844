-- ===== src/Fabric/Wire/Stream.antt =====
-- crates/ocf-fabric/src/wire.rs: a stream that was sent is received, and receiving ends.
use open_compute_fabric_rs.Prelude.{
  ℕ, zero, suc, ◌+◌, ◌%◌, ◌^◌, ◌≤◌, ◌<◌, ◌≡◌, ◌≢◌, ◌∙◌, refl, sym, ap, subst, inl, inr, ◌⊎◌, String,
  Bool, true, false, List, [], ◌∷◌, ◌++◌, some, length, arith, Member, here, there,
}
use mathlib.Core.List.{append-nil, append_assoc}
use open_compute_fabric_rs.Core.Error.{ok, ok_of_bind}
use open_compute_fabric_rs.Fabric.Wire.{
  Bytes, stream_chunk, or_noise, Session, Zstd, write_frame, recv_opened, packed, unpacked,
  send_end, send_record, send_loop, send_stream, recv_loop, recv_stream, Received,
}
use open_compute_fabric_rs.Fabric.Wire.Frame.{length-append, write_frame_ok}

-- The documented behaviour of a session: what one side seals the other opens, in order.
pub record Paired (session : Session) : Type 1 where
  pub Synced : session.Sender → session.Receiver → Type 0
  pub opens :
      (s s' : session.Sender) (r : session.Receiver) (plain sealed : Bytes)
      → Synced s r
      → session.write_message s plain ≡ inr (s', sealed)
      → (r' : session.Receiver) × (session.read_message r sealed ≡ inr (r', plain)) × Synced s' r'

-- The documented behaviour of the codec: a block comes back within its length, and has a header.
pub record Lossless (zstd : Zstd) : Type 0 where
  pub restores :
      (plain packed : Bytes) (cap : ℕ)
      → zstd.compress plain ≡ inr packed
      → length plain ≤ cap
      → zstd.decompress packed cap ≡ inr plain
  pub headed : (plain : Bytes) → zstd.compress plain ≢ inr []

-- The bytes of the reads up to the first empty one.
abbrev pub contents : List Bytes → Bytes
contents [] = []
contents ([] ∷ reads) = []
contents ((b ∷ bs) ∷ reads) = (b ∷ bs) ++ contents reads

-- No read is longer than the buffer.
abbrev pub Buffered : List Bytes → Type 0
Buffered reads = (plain : Bytes) → Member plain reads → length plain ≤ stream_chunk

or_noise_ok :
    {A : Type 0} (context : String) (x : String ⊎ A) {a : A} → or_noise context x ≡ ok a → x ≡ inr a
or_noise_ok context (inl m) h = absurd (cc)
or_noise_ok context (inr a) h = cc

module _ (session : Session) (paired : Paired session) where
  -- A sealed frame is opened at the other side.
  opened :
      (context : String) (s : session.Sender) (r : session.Receiver) (plain : Bytes)
      (sealed : session.Sender × Bytes) (frame rest : Bytes)
      → paired.Synced s r
      → or_noise context (session.write_message s plain) ≡ ok sealed
      → write_frame sealed.1 ≡ ok frame
      → (r' : session.Receiver) × (recv_opened session r (frame ++ rest) ≡ ok (r', plain, rest))
        × paired.Synced sealed.0 r'
  unfolding recv_opened
  opened context s r plain (s', c) frame rest sync e f =
      let (r', back, sync') = paired.opens s s' r plain c sync (or_noise_ok context _ e) in
      (r', rw ((write_frame_ok c frame f).1 rest, back) refl, sync')

  module _ (zstd : Zstd) (lossless : Lossless zstd) where
    packed_ok :
        (compress : Bool) (plain : Bytes) {body : Bytes}
        → packed session zstd compress plain ≡ ok body
        → length plain ≤ stream_chunk
        → plain ≢ []
        → (unpacked session zstd compress body ≡ ok plain) × (body ≢ [])
    unfolding packed unpacked
    packed_ok false plain {body} h fits full =
        let same : plain ≡ body = cc in (ap ok (sym same), λ e. full (same ∙ e))
    packed_ok true plain {body} h fits full =
        let e = or_noise_ok "zstd compress" (zstd.compress plain) h in
        (
          ap (or_noise "zstd decompress") (lossless.restores plain body stream_chunk e fits),
          λ q. lossless.headed plain (e ∙ ap inr q),
        )

    module _ (compress : Bool) where
      round :
          (fuel : ℕ) (r r' : session.Receiver) (written : Bytes) (total : ℕ)
          (wire body plain rest : Bytes)
          → recv_opened session r wire ≡ ok (r', body, rest)
          → body ≢ []
          → unpacked session zstd compress body ≡ ok plain
          → recv_loop session zstd compress (suc fuel) r written total wire
            ≡ recv_loop session zstd compress fuel r'
                (written ++ plain)
                ((total + length plain) % 2 ^ 64)
                rest
      unfolding recv_loop
      round fuel r r' written total wire [] plain rest e full u = absurd (full refl)
      round fuel r r' written total wire (b ∷ bs) plain rest e full u = rw (recv_loop, e, u) refl

      record_received :
          (s : session.Sender) (r : session.Receiver) (plain : Bytes)
          (sent : session.Sender × Bytes) (rest : Bytes)
          → paired.Synced s r
          → length plain ≤ stream_chunk
          → plain ≢ []
          → send_record session zstd compress s plain ≡ ok sent
          → (r' : session.Receiver) × paired.Synced sent.0 r'
            × (2 ≤ length sent.1)
            × ((fuel total : ℕ) (written : Bytes)
                → recv_loop session zstd compress (suc fuel) r written total (sent.1 ++ rest)
                  ≡ recv_loop session zstd compress fuel r'
                      (written ++ plain)
                      ((total + length plain) % 2 ^ 64)
                      rest)
      unfolding send_record
      record_received s r plain sent rest sync fits full h =
          let (body, e1, h1) = ok_of_bind (packed session zstd compress plain) _ h in
          let (sealed, e2, h2) =
            ok_of_bind (or_noise "seal record" (session.write_message s body)) _ h1 in
          let (frame, e3, h3) = ok_of_bind (write_frame sealed.1) _ h2 in
          let (back, filled) = packed_ok compress plain e1 fits full in
          let (r', o, sync') = opened "seal record" s r body sealed frame rest sync e2 e3 in
          let state : sealed.0 ≡ sent.0 = cc in
          let bytes : frame ≡ sent.1 = cc in
          let size = (write_frame_ok sealed.1 frame e3).0 in
          let size' = ap length bytes in
          (
            r',
            subst (λ x. paired.Synced x r') state sync',
            omega (arith, size, size'),
            λ fuel total written.
                ap (λ x. recv_loop session zstd compress (suc fuel) r written total (x ++ rest))
                  (sym bytes)
                ∙ round fuel r r' written total (frame ++ rest) body plain rest o filled back,
          )

      end_received :
          (s : session.Sender) (r : session.Receiver) (total : ℕ)
          (sent : session.Sender × Bytes × ℕ) (rest : Bytes)
          → paired.Synced s r
          → send_end session zstd compress s total ≡ ok sent
          → (r' : session.Receiver) × paired.Synced sent.0 r'
            × (2 ≤ length sent.1)
            × (sent.2 ≡ total)
            × ((fuel total' : ℕ) (written : Bytes)
                → recv_loop session zstd compress (suc fuel) r written total' (sent.1 ++ rest)
                  ≡ some (ok (r', written, total', rest)))
      unfolding send_end recv_loop
      end_received s r total sent rest sync h =
          let (sealed, e2, h2) =
            ok_of_bind (or_noise "seal eof" (session.write_message s [])) _ h in
          let (frame, e3, h3) = ok_of_bind (write_frame sealed.1) _ h2 in
          let (r', o, sync') = opened "seal eof" s r [] sealed frame rest sync e2 e3 in
          let state : sealed.0 ≡ sent.0 = cc in
          let bytes : frame ≡ sent.1 = cc in
          let size = (write_frame_ok sealed.1 frame e3).0 in
          let size' = ap length bytes in
          (
            r',
            subst (λ x. paired.Synced x r') state sync',
            omega (arith, size, size'),
            cc,
            λ fuel total' written. rw (sym bytes) (rw (recv_loop, o) refl),
          )

      -- What a receiver ends with.
      abbrev pub Arrives :
          session.Sender → Bytes → Bytes → ℕ → Received session zstd compress → Type 0
      Arrives s bytes rest total got =
          (r : session.Receiver) × paired.Synced s r × (got ≡ some (ok (r, bytes, total, rest)))

      loop_received :
          (reads : List Bytes) (s : session.Sender) (r : session.Receiver)
          (sent : session.Sender × Bytes × ℕ) (rest : Bytes) (fuel total : ℕ) (written : Bytes)
          → paired.Synced s r
          → Buffered reads
          → send_loop session zstd compress s total reads ≡ ok sent
          → length sent.1 < fuel
          → Arrives sent.0
              (written ++ contents reads)
              rest
              sent.2
              (recv_loop session zstd compress fuel r written total (sent.1 ++ rest))
      unfolding send_loop
      loop_received reads s r sent rest zero total written sync fits h enough =
          absurd (omega (arith, enough))
      loop_received [] s r sent rest (suc fuel) total written sync fits h enough =
          let (r', sync', size, count, got) = end_received s r total sent rest sync h in
          (
            r',
            sync',
            got fuel total written
                ∙ ap (λ x. some (ok (r', x, total, rest))) (sym (append-nil written))
                ∙ ap (λ x. some (ok (r', written ++ [], x, rest))) (sym count),
          )
      loop_received ([] ∷ reads) s r sent rest (suc fuel) total written sync fits h enough =
          let (r', sync', size, count, got) = end_received s r total sent rest sync h in
          (
            r',
            sync',
            got fuel total written
                ∙ ap (λ x. some (ok (r', x, total, rest))) (sym (append-nil written))
                ∙ ap (λ x. some (ok (r', written ++ [], x, rest))) (sym count),
          )
      loop_received ((b ∷ bs) ∷ reads) s r sent rest (suc fuel) total written sync fits h enough =
          let (first, e1, h1) = ok_of_bind (send_record session zstd compress s (b ∷ bs)) _ h in
          let (later, e2, h2) =
            ok_of_bind
              (send_loop session zstd compress first.0 ((total + length (b ∷ bs)) % 2 ^ 64) reads) _
              h1 in
          let wire : first.1 ++ later.1 ≡ sent.1 = cc in
          let state : later.0 ≡ sent.0 = cc in
          let count : later.2 ≡ sent.2 = cc in
          let (r1, sync1, size, got) =
            record_received s r (b ∷ bs) first (later.1 ++ rest) sync (fits (b ∷ bs) (here refl))
              (λ q. absurd (cc)) e1 in
          let shorter = ap length wire ∙ refl in
          let both = length-append first.1 later.1 in
          let (r2, sync2, got2) =
            loop_received reads first.0 r1 later rest fuel ((total + length (b ∷ bs)) % 2 ^ 64)
              (written ++ (b ∷ bs)) sync1 (λ p m. fits p (there m)) e2
              (omega (arith, size, shorter, both, enough)) in
          (
            r2,
            subst (λ x. paired.Synced x r2) state sync2,
            ap (λ x. recv_loop session zstd compress (suc fuel) r written total (x ++ rest))
                  (sym wire)
                ∙ ap (recv_loop session zstd compress (suc fuel) r written total)
                    (append_assoc first.1 later.1 rest)
                ∙ got fuel total written
                ∙ got2
                ∙ ap (λ x. some (ok (r2, x, later.2, rest)))
                    (append_assoc written (b ∷ bs) (contents reads))
                ∙ ap (λ x. some (ok (r2, written ++ ((b ∷ bs) ++ contents reads), x, rest))) count,
          )

      count_sent :
          (reads : List Bytes) (s : session.Sender) (r : session.Receiver)
          (sent : session.Sender × Bytes × ℕ) (total : ℕ)
          → paired.Synced s r
          → total < 2 ^ 64
          → Buffered reads
          → send_loop session zstd compress s total reads ≡ ok sent
          → sent.2 ≡ (total + length (contents reads)) % 2 ^ 64
      unfolding send_loop
      count_sent [] s r sent total sync small fits h =
          let (r', sync', size, count, got) = end_received s r total sent [] sync h in
          omega (arith, count, small)
      count_sent ([] ∷ reads) s r sent total sync small fits h =
          let (r', sync', size, count, got) = end_received s r total sent [] sync h in
          omega (arith, count, small)
      count_sent ((b ∷ bs) ∷ reads) s r sent total sync small fits h =
          let (first, e1, h1) = ok_of_bind (send_record session zstd compress s (b ∷ bs)) _ h in
          let (later, e2, h2) =
            ok_of_bind
              (send_loop session zstd compress first.0 ((total + length (b ∷ bs)) % 2 ^ 64) reads) _
              h1 in
          let (r1, sync1, size, got) =
            record_received s r (b ∷ bs) first [] sync (fits (b ∷ bs) (here refl))
              (λ q. absurd (cc)) e1 in
          let rest =
            count_sent reads first.0 r1 later ((total + length (b ∷ bs)) % 2 ^ 64) sync1
              (omega arith) (λ p m. fits p (there m)) e2 in
          let count : later.2 ≡ sent.2 = cc in
          let both = length-append (b ∷ bs) (contents reads) in omega (arith, rest, count, both)

      -- What is sent arrives: if a stream was sent over a session whose sides are in step, then receiving
      -- ends, writes exactly the bytes that were read, compressed on the way or not, counts as many as the
      -- sender (their number as a u64), leaves what follows on the socket, and the sides are in step again.
      pub recv_stream-send_stream :
          (reads : List Bytes) (s : session.Sender) (r : session.Receiver)
          (sent : session.Sender × Bytes × ℕ) (rest : Bytes)
          → paired.Synced s r
          → Buffered reads
          → send_stream session zstd compress s reads ≡ ok sent
          → Arrives sent.0
              (contents reads)
              rest
              sent.2
              (recv_stream session zstd compress r (sent.1 ++ rest))
            × (sent.2 ≡ length (contents reads) % 2 ^ 64)
      unfolding send_stream recv_stream
      recv_stream-send_stream reads s r sent rest sync fits h =
          let size = length-append sent.1 rest in
          let count = count_sent reads s r sent 0 sync (omega arith) fits h in
          (
            loop_received reads s r sent rest (suc (length (sent.1 ++ rest))) 0 [] sync fits h
                (omega (arith, size)),
            omega (arith, count),
          )
