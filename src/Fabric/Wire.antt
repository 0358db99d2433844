-- ===== src/Fabric/Wire.antt =====
-- crates/ocf-fabric/src/wire.rs: length-prefixed frames, and a stream of sealed records. The session of
-- the Noise library and the codec of zstd are records; a failure of theirs is a message. A socket is the
-- list of the bytes in flight, a reader the list of what its successive reads return, a writer the list
-- of the bytes written; failures of the operating system are left out.
pub mod Frame
pub mod Stream
pub mod Ends
pub mod Delivery
use open_compute_fabric_rs.Prelude.{
  ℕ, zero, suc, ◌+◌, ◌*◌, ◌-◌, ◌/◌, ◌%◌, ◌^◌, String, Bool, true, false, List, [], ◌∷◌, ◌++◌,
  Option, none, some, length, ltb, ◌⊎◌, inl, inr, if◌then◌else◌,
}
use open_compute_fabric_rs.Core.Error.{Result, ok, err, provider, invalid_argument, ◌>>=◌, concat}

abbrev pub Bytes : Type 0
Bytes = List ℕ

abbrev pub max_noise_msg : ℕ
max_noise_msg = 65535

abbrev pub stream_chunk : ℕ
stream_chunk = 64 * 1024 - 64

-- "{ctx}: {e}" of the provider "noise"
abbrev pub or_noise : {A : Type 0} → String → String ⊎ A → Result A
or_noise context (inl message) = err (provider "noise" (concat context (concat ": " message)))
or_noise context (inr a) = ok a

-- `snow::TransportState`, at the side that seals and at the side that opens.
pub record Session : Type 1 where
  pub Sender : Type 0
  pub Receiver : Type 0
  pub write_message : Sender → Bytes → String ⊎ (Sender × Bytes)
  pub read_message : Receiver → Bytes → String ⊎ (Receiver × Bytes)

-- `zstd::bulk`; to decompress takes the greatest length of the result.
pub record Zstd : Type 0 where
  pub compress : Bytes → String ⊎ Bytes
  pub decompress : Bytes → ℕ → String ⊎ Bytes

-- The length is a big-endian `u16`.
unfoldable pub write_frame : Bytes → Result Bytes
write_frame body =
    if ltb max_noise_msg (length body)
    then err (invalid_argument "noise frame exceeds 65535 bytes")
    else ok (length body % 2 ^ 16 / 256 ∷ length body % 2 ^ 16 % 256 ∷ body)

-- The first `n` bytes and the rest, if there are so many.
unfoldable pub read_exact : ℕ → Bytes → Option (Bytes × Bytes)
read_exact zero wire = some ([], wire)
read_exact (suc n) [] = none
read_exact (suc n) (b ∷ wire) = elim (read_exact n wire) [
  | none ↦ none
  | some (bytes, rest) ↦ some (b ∷ bytes, rest)
]

-- What is read, and what is left on the socket.
unfoldable pub read_frame : Bytes → Result (Bytes × Bytes)
unfolding read_exact
read_frame (high ∷ low ∷ wire) = elim (read_exact (high * 256 + low) wire) [
  | none ↦ or_noise "read body" (inl "early eof")
  | some frame ↦ ok frame
]
read_frame _ = or_noise "read len" (inl "early eof")

module _ (session : Session) where
  unfoldable pub send_sealed : session.Sender → Bytes → Result (session.Sender × Bytes)
  unfolding write_frame
  send_sealed s payload = do
    sealed ← or_noise "seal" (session.write_message s payload)
    frame ← write_frame sealed.1
    ok (sealed.0, frame)

  -- What is opened, and what is left on the socket.
  unfoldable pub recv_opened : session.Receiver → Bytes → Result (session.Receiver × Bytes × Bytes)
  unfolding read_frame
  recv_opened r wire = do
    frame ← read_frame wire
    opened ← or_noise "open" (session.read_message r frame.0)
    ok (opened.0, opened.1, frame.1)

  module _ (zstd : Zstd) (compress : Bool) where
    pub packed : Bytes → Result Bytes
    packed plain = if compress then or_noise "zstd compress" (zstd.compress plain) else ok plain

    pub unpacked : Bytes → Result Bytes
    unpacked record_ =
        if compress
        then or_noise "zstd decompress" (zstd.decompress record_ stream_chunk)
        else ok record_

    -- The end-of-stream record is empty and never compressed.
    pub send_end : session.Sender → ℕ → Result (session.Sender × Bytes × ℕ)
    unfolding write_frame
    send_end s total = do
      sealed ← or_noise "seal eof" (session.write_message s [])
      frame ← write_frame sealed.1
      ok (sealed.0, frame, total)

    pub send_record : session.Sender → Bytes → Result (session.Sender × Bytes)
    unfolding packed write_frame
    send_record s plain = do
      body ← packed plain
      sealed ← or_noise "seal record" (session.write_message s body)
      frame ← write_frame sealed.1
      ok (sealed.0, frame)

    -- The loop over the reads, up to one that is empty; `total` is a `u64`.
    pub send_loop : session.Sender → ℕ → List Bytes → Result (session.Sender × Bytes × ℕ)
    unfolding send_record send_end
    send_loop s total [] = send_end s total
    send_loop s total ([] ∷ reads) = send_end s total
    send_loop s total ((b ∷ bs) ∷ reads) = do
      first ← send_record s (b ∷ bs)
      rest ← send_loop first.0 ((total + length (b ∷ bs)) % 2 ^ 64) reads
      ok (rest.0, first.1 ++ rest.1, rest.2)

    unfoldable pub send_stream : session.Sender → List Bytes → Result (session.Sender × Bytes × ℕ)
    unfolding send_loop
    send_stream s reads = send_loop s 0 reads

    -- The session, the bytes written, their number, and what is left on the socket; `none` where the
    -- fuel runs out.
    abbrev pub Received : Type 0
    Received = Option (Result (session.Receiver × Bytes × ℕ × Bytes))

    pub recv_loop : ℕ → session.Receiver → Bytes → ℕ → Bytes → Received
    unfolding recv_opened unpacked
    recv_loop zero r written total wire = none
    recv_loop (suc fuel) r written total wire = elim (recv_opened r wire) [
      | err e ↦ some (err e)
      | ok (r', [], rest) ↦ some (ok (r', written, total, rest))
      | ok (r', b ∷ bs, rest) ↦ elim (unpacked (b ∷ bs)) [
        | err e ↦ some (err e)
        | ok body ↦ recv_loop fuel r' (written ++ body) ((total + length body) % 2 ^ 64) rest
      ]
    ]

    -- Every round takes at least one byte from the socket.
    unfoldable pub recv_stream : session.Receiver → Bytes → Received
    unfolding recv_loop
    recv_stream r wire = recv_loop (suc (length wire)) r [] 0 wire
