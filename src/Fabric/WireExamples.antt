-- ===== src/Fabric/WireExamples.antt =====
-- crates/ocf-fabric/src/wire.rs: a session that numbers its messages, and a codec that adds a header.
use open_compute_fabric_rs.Prelude.{
  ℕ, suc, ◌+◌, ◌≤◌, ◌<◌, ◌%◌, ◌^◌, ◌≡◌, ◌↔◌, some, ◌≢◌, ◌∙◌, refl, sym, ap, inl, inr, ◌⊎◌, String,
  true, List, [], ◌∷◌, ◌++◌, none, length, arith, nat_beq, nat_eq, here, there, Member-nil,
  if◌then◌else◌,
}
use open_compute_fabric_rs.Core.Error.{ok, err, invalid_argument}
use open_compute_fabric_rs.Fabric.Wire.{
  Bytes, Session, Zstd, write_frame, read_frame, send_stream, recv_stream,
}
use open_compute_fabric_rs.Fabric.Wire.Frame.{read_frame-write_frame}
use open_compute_fabric_rs.Fabric.Wire.Stream.{
  Paired, Lossless, Buffered, Arrives, contents, recv_stream-send_stream,
}
use open_compute_fabric_rs.Fabric.Wire.Delivery.{Delivers, recv_stream_iff}

-- Each message starts with its number, which the other side expects.
abbrev numbered : Session
numbered = record {
  Sender = ℕ;
  Receiver = ℕ;
  write_message = λ n plain. inr (suc n, n ∷ plain);
  read_message = read;
}
  where
    read : ℕ → Bytes → String ⊎ (ℕ × Bytes)
    read n [] = inl "short"
    read n (m ∷ plain) = if nat_beq n m then inr (suc n, plain) else inl "replayed"

abbrev numbered_paired : Paired numbered
numbered_paired = record {
  Synced = λ s r. s ≡ r;
  opens = λ s s' r plain sealed sync e.
      let q : s ∷ plain ≡ sealed = cc in
      let next : suc s ≡ s' = cc in
      let step : numbered.read_message r (s ∷ plain) ≡ inr (suc r, plain) = ground (arith, sync) in
      (suc r, ap (numbered.read_message r) (sym q) ∙ step, sym next ∙ ap suc sync);
}

abbrev tagged : Zstd
tagged = record { compress = λ plain. inr (40 ∷ plain); decompress = untag }
  where
    untag : Bytes → ℕ → String ⊎ Bytes
    untag [] cap = inl "no header"
    untag (b ∷ plain) cap = inr plain

abbrev tagged_lossless : Lossless tagged
tagged_lossless = record {
  restores = λ plain packed cap e fits.
      let q : 40 ∷ plain ≡ packed = cc in ap (λ x. tagged.decompress x cap) (sym q);
  headed = λ plain e. let q : 40 ∷ plain ≡ [] = cc in absurd (cc);
}

abbrev reads : List Bytes
reads = (1 ∷ 2 ∷ []) ∷ (3 ∷ []) ∷ []

-- Three frames: two records and the end.
abbrev frames : Bytes
frames = 0 ∷ 4 ∷ 0 ∷ 40 ∷ 1 ∷ 2 ∷ 0 ∷ 3 ∷ 1 ∷ 40 ∷ 3 ∷ 0 ∷ 1 ∷ 2 ∷ []

sent : send_stream numbered tagged true 0 reads ≡ ok (3, frames, 3)
unfolding send_stream write_frame
sent = refl

reads-Buffered : Buffered reads
reads-Buffered p (here e) = let l = ap length e in omega (arith, l)
reads-Buffered p (there (here e)) = let l = ap length e in omega (arith, l)
reads-Buffered p (there (there m)) = absurd (Member-nil m)

recv_stream-send_stream_example :
    Arrives numbered numbered_paired tagged tagged_lossless true 3
      (contents reads)
      (9 ∷ [])
      3
      (recv_stream numbered tagged true 0 (frames ++ (9 ∷ [])))
    × (3 ≡ length (contents reads) % 2 ^ 64)
recv_stream-send_stream_example =
    recv_stream-send_stream numbered numbered_paired tagged tagged_lossless true reads 0 0
      (3, frames, 3) (9 ∷ []) refl reads-Buffered sent

recv_stream_iff_example :
    (recv_stream numbered tagged true 0 (frames ++ (9 ∷ [])) ≢ none)
    × ((recv_stream numbered tagged true 0 (frames ++ (9 ∷ []))
          ≡ some (ok (3, 1 ∷ 2 ∷ 3 ∷ [], 3, 9 ∷ [])))
        ↔ (Delivers numbered tagged true 0 (frames ++ (9 ∷ [])) 3 (1 ∷ 2 ∷ 3 ∷ []) (9 ∷ [])
            × (3 ≡ 3 % 2 ^ 64)))
recv_stream_iff_example =
    recv_stream_iff numbered tagged true 0 3 (frames ++ (9 ∷ [])) (1 ∷ 2 ∷ 3 ∷ []) (9 ∷ []) 3

frames_deliver : Delivers numbered tagged true 0 (frames ++ (9 ∷ [])) 3 (1 ∷ 2 ∷ 3 ∷ []) (9 ∷ [])
unfolding recv_stream read_frame
frames_deliver = (recv_stream_iff_example.1.0 refl).0

abbrev one : Bytes
one = 7 ∷ []

read_frame-write_frame_example :
    (length one ≤ 65535
      → (frame : Bytes) × (write_frame one ≡ ok frame)
        × (length frame ≡ 2 + length one)
        × ((rest : Bytes) → read_frame (frame ++ rest) ≡ ok (one, rest)))
    × (65535 < length one
        → write_frame one ≡ err (invalid_argument "noise frame exceeds 65535 bytes"))
read_frame-write_frame_example = read_frame-write_frame one
