-- ===== src/Network/Tests.antt =====
-- Runs of `BinaryProtocol` of src/network/protocol.ts.
use sync_engine.Base.{
  ◌+◌, ◌%◌, ◌≡◌, ◌≤◌, ◌<◌, refl, some, none, List, [], ◌∷◌, ◌++◌, arith, length, take, All,
}
use sync_engine.Network.Protocol.{
  BinaryProtocol, Buffer, Packet, PacketType, Item, code, data_, heartbeat, batch, encode, decode,
  encode_batch, decode_batch, frame, compute_checksum, sum_bytes, next_sequence, u16_mod, u32_mod,
}
use sync_engine.Network.Protocol.RoundTrip.{decode-encode}
use sync_engine.Network.Protocol.Canonical.{decode_canonical, IsByte}
use sync_engine.Network.Protocol.Batch.{
  decode_batch-encode_batch, batch_size, next_id, last_id, numbered,
}

-- The last number before the sequence starts again at 0.
abbrev last_number : BinaryProtocol
last_number = record { sequence_id = 65535 }

abbrev two_bytes : Buffer
two_bytes = 1 ∷ 2 ∷ []

abbrev signed : Buffer
signed = 200 ∷ 100 ∷ []

abbrev hello : Buffer
hello = 83 ∷ 69 ∷ 78 ∷ 71 ∷ 1 ∷ 3 ∷ 0 ∷ 7 ∷ 0 ∷ 0 ∷ 0 ∷ 2 ∷ 44 ∷ 200 ∷ 100 ∷ 9 ∷ []

abbrev hello_packet : Packet
hello_packet = record { type = 3; id = 7; timestamp = 50; payload = 200 ∷ 100 ∷ [] }

hello_decodes : decode 50 hello ≡ some hello_packet
unfolding decode compute_checksum sum_bytes
hello_decodes = refl

encoded :
    encode (record { sequence_id = 6 }) data_ (200 ∷ 100 ∷ [])
    ≡ (record { sequence_id = 7 }, some (take 15 hello))
unfolding encode frame next_sequence compute_checksum sum_bytes
encoded = refl

decode-encode_example :
    let (p', out) = encode last_number heartbeat (1 ∷ 2 ∷ []) in
    (p'.sequence_id ≡ (65535 + 1) % u16_mod)
    × (length two_bytes < u32_mod
        → (buf : Buffer) × (out ≡ some buf)
          × (decode 50 (buf ++ 9 ∷ [])
              ≡ some
                  (record { type = 4; id = p'.sequence_id; timestamp = 50; payload = 1 ∷ 2 ∷ [] })))
    × (u32_mod ≤ length two_bytes → out ≡ none)
decode-encode_example = decode-encode last_number heartbeat (1 ∷ 2 ∷ []) (9 ∷ []) 50

hello-IsByte : All IsByte hello
hello-IsByte = ground arith

decode_canonical_example :
    (extra : Buffer) × (hello ≡ frame 3 7 (200 ∷ 100 ∷ []) ++ extra)
    × (3 < 256)
    × (7 < u16_mod)
    × (length signed < u32_mod)
    × (hello_packet.timestamp ≡ 50)
    × ((q : BinaryProtocol) (ty : PacketType)
        → code ty ≡ 3
        → (next_sequence q).1 ≡ 7
        → (encode q ty signed).1 ≡ some (frame 3 7 signed))
decode_canonical_example = decode_canonical 50 hello hello_packet hello-IsByte hello_decodes

abbrev items : List Item
items = record { type = data_; payload = 1 ∷ [] } ∷ record { type = heartbeat; payload = [] } ∷ []

small : batch_size items < u32_mod
small = omega arith

decode_batch-encode_batch_example :
    let (p', out) = encode_batch last_number items in
    (buf : Buffer) × (packet : Packet) × (out ≡ some buf)
    × (decode 50 buf ≡ some packet)
    × (packet.type ≡ code batch)
    × (packet.id ≡ next_id (last_id 65535 items))
    × (p'.sequence_id ≡ packet.id)
    × (decode_batch 50 packet.payload ≡ numbered 50 65535 items)
decode_batch-encode_batch_example = decode_batch-encode_batch last_number items 50 small
