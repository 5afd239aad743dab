-- ===== src/Network/Protocol/RoundTrip.antt =====
-- `decode` inverts `encode`.
use sync_engine.Base.{
  ℕ, ◌+◌, ◌%◌, ◌<◌, ◌≤◌, ◌≡◌, refl, none, some, ◌++◌, length, arith, length-append, take-append,
}
use sync_engine.Network.Protocol.{
  Buffer, PacketType, code, BinaryProtocol, u32_mod, u16_mod, frame, encode, decode,
}

pub decode-frame :
    (now type id : ℕ) (payload extra : Buffer)
    → length payload < u32_mod
    → decode now (frame type id payload ++ extra)
      ≡ some (record { type = type; id = id; timestamp = now; payload = payload })
unfolding decode frame
decode-frame now type id payload extra h =
    ground (arith, length-append payload extra, take-append payload extra)

pub length-frame :
    (type id : ℕ) (payload : Buffer) → length (frame type id payload) ≡ 13 + length payload
unfolding frame
length-frame type id payload = omega arith

-- Encoding a payload shorter than 2^32 bytes advances the sequence number by one modulo 2^16 and
-- gives a buffer which `decode` reads back, whatever bytes follow it: the type's code, the new
-- sequence number, the time of decoding and the payload. A longer payload gives no buffer.
pub decode-encode :
    (p : BinaryProtocol) (type : PacketType) (payload extra : Buffer) (now : ℕ)
    → let (p', out) = encode p type payload in
      (p'.sequence_id ≡ (p.sequence_id + 1) % u16_mod)
      × (length payload < u32_mod
          → (buf : Buffer) × (out ≡ some buf)
            × (decode now (buf ++ extra)
                ≡ some (record {
                  type = code type;
                  id = p'.sequence_id;
                  timestamp = now;
                  payload = payload;
                })))
      × (u32_mod ≤ length payload → out ≡ none)
unfolding encode
decode-encode p type payload extra now = (
  refl,
  λ h. (
    frame (code type) ((p.sequence_id + 1) % u16_mod) payload,
    ground arith,
    decode-frame now (code type) ((p.sequence_id + 1) % u16_mod) payload extra h,
  ),
  λ h. ground arith,
)
