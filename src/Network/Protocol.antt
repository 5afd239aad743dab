-- ===== src/Network/Protocol.antt =====
-- `BinaryProtocol` of src/network/protocol.ts. A buffer is the list of its bytes. The clock is an
-- argument. `none` from an encoder is the `RangeError` that `writeUInt32BE` throws for a length
-- of 2^32 or more. A `Packet`'s type is a byte, since `decode` casts it without a check.
pub mod RoundTrip
pub mod Canonical
pub mod Corruption
pub mod Batch
use sync_engine.Base.{
  ℕ, zero, suc, ◌+◌, ◌*◌, ◌/◌, ◌%◌, ◌^◌, Option, none, some, List, [], ◌∷◌, ◌++◌, ltb, ◌==◌, length,
  take, drop, if◌then◌else◌,
}

abbrev pub Buffer : Type 0
Buffer = List ℕ

pub data PacketType : Type 0 where
  handshake handshake_ack data_ heartbeat heartbeat_ack disconnect error batch : PacketType

-- The value of the enumeration.
abbrev pub code : PacketType → ℕ
code handshake = 1
code handshake_ack = 2
code data_ = 3
code heartbeat = 4
code heartbeat_ack = 5
code disconnect = 6
code error = 7
code batch = 8

pub record Packet : Type 0 where
  pub type : ℕ
  pub id : ℕ
  pub timestamp : ℕ
  pub payload : Buffer

pub record BinaryProtocol : Type 0 where
  pub sequence_id : ℕ

abbrev pub header_size : ℕ
header_size = 13

abbrev pub version : ℕ
version = 1

-- The bytes of MAGIC, 0x53454E47, and the number that they spell.
abbrev pub magic : ℕ
magic = 0x53454E47

abbrev pub u32_mod : ℕ
u32_mod = 2 ^ 32

abbrev pub u16_mod : ℕ
u16_mod = 2 ^ 16

-- `writeUInt32BE`, of a number below 2^32.
abbrev pub u32_bytes : ℕ → Buffer → Buffer
u32_bytes n rest = n / 16777216 ∷ n / 65536 % 256 ∷ n / 256 % 256 ∷ n % 256 ∷ rest

-- `readUInt32BE`
abbrev pub u32_of : ℕ → ℕ → ℕ → ℕ → ℕ
u32_of a b c d = a * 16777216 + b * 65536 + c * 256 + d

-- `writeUInt16BE`, of a number below 2^16.
abbrev pub u16_bytes : ℕ → Buffer → Buffer
u16_bytes n rest = n / 256 ∷ n % 256 ∷ rest

abbrev pub u16_of : ℕ → ℕ → ℕ
u16_of a b = a * 256 + b

-- The loop of `computeChecksum`: `& 0xFF` keeps the remainder by 256.
unfoldable pub sum_bytes : ℕ → Buffer → ℕ
sum_bytes sum [] = sum
sum_bytes sum (b ∷ bs) = sum_bytes ((sum + b) % 256) bs

unfoldable pub compute_checksum : Buffer → ℕ
unfolding sum_bytes
compute_checksum bs = sum_bytes 0 bs

unfoldable pub next_sequence : BinaryProtocol → BinaryProtocol × ℕ
next_sequence p =
    let next = (p.sequence_id + 1) % u16_mod in (record p { sequence_id = next }, next)

-- The fields that `encode` writes, in the order of their offsets.
unfoldable pub frame : ℕ → ℕ → Buffer → Buffer
frame type id payload = u32_bytes magic (
    version ∷ type ∷ u16_bytes id (u32_bytes (length payload) (compute_checksum payload ∷ payload)))

-- The sequence number is taken before the length is written.
unfoldable pub encode : BinaryProtocol → PacketType → Buffer → BinaryProtocol × Option Buffer
unfolding next_sequence
encode p type payload =
    let (p', id) = next_sequence p in
    (p', if ltb (length payload) u32_mod then some (frame (code type) id payload) else none)

-- A shorter buffer than the header has no first pattern.
unfoldable pub decode : ℕ → Buffer → Option Packet
decode now (m0 ∷ m1 ∷ m2 ∷ m3 ∷ v ∷ t ∷ i0 ∷ i1 ∷ l0 ∷ l1 ∷ l2 ∷ l3 ∷ checksum ∷ rest) =
    if u32_of m0 m1 m2 m3 == magic
    then (if v == version
        then (if ltb (length rest) (u32_of l0 l1 l2 l3)
            then none
            else (let payload = take (u32_of l0 l1 l2 l3) rest in
                if checksum == compute_checksum payload
                then some
                    (record { type = t; id = u16_of i0 i1; timestamp = now; payload = payload })
                else none))
        else none)
    else none
decode now _ = none

-- One element of the array that `encodeBatch` takes.
pub record Item : Type 0 where
  pub type : PacketType
  pub payload : Buffer

-- `packets.map(p => this.encode(p.type, p.payload))`, then each buffer behind its length.
unfoldable pub encode_all : BinaryProtocol → List Item → BinaryProtocol × Option Buffer
encode_all p [] = (p, some [])
encode_all p (x ∷ xs) =
    let (p', first) = encode p x.type x.payload in
    let later : BinaryProtocol × Option Buffer = encode_all p' xs in
    elim first [
      | none ↦ (p', none)
      | some buf ↦ (
        later.0,
        elim later.1 [
          | none ↦ none
          | some bufs ↦
              if ltb (length buf) u32_mod then some (u32_bytes (length buf) (buf ++ bufs)) else none
        ],
      )
    ]

unfoldable pub encode_batch : BinaryProtocol → List Item → BinaryProtocol × Option Buffer
encode_batch p xs =
    let (p', all) = encode_all p xs in
    elim all [ none ↦ (p', none) | some bytes ↦ encode p' batch bytes ]

abbrev pub keep_packet : Option Packet → List Packet → List Packet
keep_packet none ps = ps
keep_packet (some p) ps = p ∷ ps

-- The loop of `decodeBatch` over the bytes from `offset` on. Each round takes four bytes at least,
-- so the number of bytes is fuel enough.
unfoldable pub decode_batch_loop : ℕ → ℕ → Buffer → List Packet
decode_batch_loop zero now bytes = []
decode_batch_loop (suc fuel) now (l0 ∷ l1 ∷ l2 ∷ l3 ∷ rest) =
    let len = u32_of l0 l1 l2 l3 in
    let later = decode_batch_loop fuel now (drop len rest) in
    if ltb (length rest) len then [] else keep_packet (decode now (take len rest)) later
decode_batch_loop (suc fuel) now _ = []

unfoldable pub decode_batch : ℕ → Buffer → List Packet
unfolding decode_batch_loop
decode_batch now bytes = decode_batch_loop (length bytes) now bytes
