-- ===== src/Network/Protocol/Batch.antt =====
-- `decodeBatch` inverts `encodeBatch`.
use mathlib.Core.List.{append-nil}
use sync_engine.Base.{
  ℕ, zero, suc, ◌+◌, ◌/◌, ◌%◌, ◌<◌, ◌≤◌, ◌≡◌, refl, sym, ap, ◌∙◌, some, List, [], ◌∷◌, ◌++◌, length,
  take, drop, arith, length-append, take-append, drop-append,
}
use sync_engine.Network.Protocol.{
  Buffer, code, batch, Packet, Item, BinaryProtocol, u32_mod, u16_mod, u32_of, u32_bytes, frame,
  encode, decode, encode_all, encode_batch, decode_batch_loop, decode_batch, keep_packet,
}
use sync_engine.Network.Protocol.RoundTrip.{decode-frame, length-frame}

abbrev pub next_id : ℕ → ℕ
next_id seq = (seq + 1) % u16_mod

-- The bytes of a batch: four of length, 13 of header and the payload for each item.
abbrev pub batch_size : List Item → ℕ
batch_size [] = 0
batch_size (x ∷ xs) = 17 + length x.payload + batch_size xs

-- The packets that a batch decodes to: each item in its order, under consecutive numbers.
abbrev pub numbered : ℕ → ℕ → List Item → List Packet
numbered now seq [] = []
numbered now seq (x ∷ xs) =
    record { type = code x.type; id = next_id seq; timestamp = now; payload = x.payload }
    ∷ numbered now (next_id seq) xs

abbrev pub last_id : ℕ → List Item → ℕ
last_id seq [] = seq
last_id seq (x ∷ xs) = last_id (next_id seq) xs

batch_bytes : ℕ → List Item → Buffer
batch_bytes seq [] = []
batch_bytes seq (x ∷ xs) =
    u32_bytes (13 + length x.payload)
      (frame (code x.type) (next_id seq) x.payload ++ batch_bytes (next_id seq) xs)

length-batch_bytes : (seq : ℕ) (xs : List Item) → length (batch_bytes seq xs) ≡ batch_size xs
unfolding batch_bytes
length-batch_bytes seq [] = refl
length-batch_bytes seq (x ∷ xs) = omega (
  arith,
  length-append (frame (code x.type) (next_id seq) x.payload) (batch_bytes (next_id seq) xs),
  length-frame (code x.type) (next_id seq) x.payload,
  length-batch_bytes (next_id seq) xs,
)

encode_all-batch_bytes :
    (p : BinaryProtocol) (xs : List Item)
    → batch_size xs < u32_mod
    → encode_all p xs
      ≡ (record { sequence_id = last_id p.sequence_id xs }, some (batch_bytes p.sequence_id xs))
unfolding encode_all encode batch_bytes
encode_all-batch_bytes p [] h = refl
encode_all-batch_bytes p (x ∷ xs) h =
    let id : ℕ = next_id p.sequence_id in
    ground (
      arith,
      encode_all-batch_bytes (record { sequence_id = id }) xs (omega arith),
      length-frame (code x.type) id x.payload,
    )

decode_batch_loop-round :
    (fuel now n : ℕ) (f r : Buffer)
    → length f ≡ n
    → n < u32_mod
    → decode_batch_loop (suc fuel) now (u32_bytes n (f ++ r))
      ≡ keep_packet (decode now f) (decode_batch_loop fuel now r)
unfolding decode_batch_loop
decode_batch_loop-round fuel now n f r e h =
    let len : u32_of (n / 16777216) (n / 65536 % 256) (n / 256 % 256) (n % 256) ≡ n = omega arith in
    let first : take n (f ++ r) ≡ f = rw (← e) (take-append f r) in
    let later : drop n (f ++ r) ≡ r = rw (← e) (drop-append f r) in
    rw (len, first, later) (ground (arith, length-append f r))

decode_batch_loop-batch_bytes :
    (fuel now seq : ℕ) (xs : List Item)
    → batch_size xs ≤ fuel
    → batch_size xs < u32_mod
    → decode_batch_loop fuel now (batch_bytes seq xs) ≡ numbered now seq xs
unfolding batch_bytes
decode_batch_loop-batch_bytes zero now seq [] hf h = unfold decode_batch_loop in refl
decode_batch_loop-batch_bytes (suc fuel) now seq [] hf h = unfold decode_batch_loop in refl
decode_batch_loop-batch_bytes zero now seq (x ∷ xs) hf h = absurd (omega arith)
decode_batch_loop-batch_bytes (suc fuel) now seq (x ∷ xs) hf h =
    let id : ℕ = next_id seq in
    let f : Buffer = frame (code x.type) id x.payload in
    decode_batch_loop-round fuel now (13 + length x.payload) f (batch_bytes id xs)
      (length-frame (code x.type) id x.payload) (omega arith)
    ∙ ground (
      arith,
      append-nil f,
      decode-frame now (code x.type) id x.payload [] (omega arith),
      decode_batch_loop-batch_bytes fuel now id xs (omega arith) (omega arith),
    )

-- The items of a batch whose encoding is shorter than 2^32 bytes come back: the buffer that
-- `encodeBatch` gives decodes to one BATCH packet, and `decodeBatch` of its payload gives every
-- item in its order, under consecutive sequence numbers from the encoder's on; the BATCH packet has
-- the number after the last of them.
pub decode_batch-encode_batch :
    (p : BinaryProtocol) (xs : List Item) (now : ℕ)
    → batch_size xs < u32_mod
    → let (p', out) = encode_batch p xs in
      (buf : Buffer) × (packet : Packet) × (out ≡ some buf)
      × (decode now buf ≡ some packet)
      × (packet.type ≡ code batch)
      × (packet.id ≡ next_id (last_id p.sequence_id xs))
      × (p'.sequence_id ≡ packet.id)
      × (decode_batch now packet.payload ≡ numbered now p.sequence_id xs)
unfolding encode_batch decode_batch encode
decode_batch-encode_batch p xs now h =
    let seq : ℕ = p.sequence_id in
    let id : ℕ = next_id (last_id seq xs) in
    let bytes : Buffer = batch_bytes seq xs in
    let size = length-batch_bytes seq xs in
    let all = encode_all-batch_bytes p xs h in
    (
      frame (code batch) id bytes,
      record { type = code batch; id = id; timestamp = now; payload = bytes },
      ground (arith, all, size),
      ap (decode now) (sym (append-nil (frame (code batch) id bytes)))
          ∙ decode-frame now (code batch) id bytes [] (omega (arith, size)),
      refl,
      refl,
      ground (arith, all, size),
      decode_batch_loop-batch_bytes (length bytes) now seq xs (omega (arith, size)) h,
    )
