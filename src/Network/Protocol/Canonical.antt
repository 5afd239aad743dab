-- ===== src/Network/Protocol/Canonical.antt =====
-- Which buffers `decode` of src/network/protocol.ts accepts.
use sync_engine.Base.{
  ℕ, ◌<◌, ◌≤◌, ◌≡◌, refl, some, [], ◌∷◌, ◌++◌, length, take, drop, arith, take-append-drop, All,
  length-take, true, ltb, ap,
}
use sync_engine.Network.Protocol.{
  BinaryProtocol, PacketType, code, next_sequence, encode, Buffer, Packet, u32_of, u32_mod, u16_mod,
  u16_of, version, magic, frame, compute_checksum, decode,
}

abbrev pub IsByte : ℕ → Type 0
IsByte b = b < 256

-- The tests that an accepted buffer has passed, and the packet that it gives.
decode_passed :
    (now m0 m1 m2 m3 v t i0 i1 l0 l1 l2 l3 c : ℕ) (rest : Buffer) (p : Packet)
    → decode now (m0 ∷ m1 ∷ m2 ∷ m3 ∷ v ∷ t ∷ i0 ∷ i1 ∷ l0 ∷ l1 ∷ l2 ∷ l3 ∷ c ∷ rest) ≡ some p
    → let payload = take (u32_of l0 l1 l2 l3) rest in
      (u32_of m0 m1 m2 m3 ≡ magic)
      × (v ≡ version)
      × (u32_of l0 l1 l2 l3 ≤ length rest)
      × (c ≡ compute_checksum payload)
      × (p ≡ record { type = t; id = u16_of i0 i1; timestamp = now; payload = payload })
unfolding decode
decode_passed now m0 m1 m2 m3 v t i0 i1 l0 l1 l2 l3 c rest p h = ground arith

encode-eq-frame :
    (q : BinaryProtocol) (ty : PacketType) (type id : ℕ) (payload : Buffer)
    → length payload < u32_mod
    → code ty ≡ type
    → (next_sequence q).1 ≡ id
    → (encode q ty payload).1 ≡ some (frame type id payload)
unfolding encode
encode-eq-frame q ty type id payload lt e n =
    let room : ltb (length payload) u32_mod ≡ true = ground (arith, lt) in
    rw (room) (ap (λ (x : ℕ × ℕ). some (frame x.0 x.1 payload)) (λ i. (e i, n i)))

-- A buffer of bytes that `decode` accepts is the frame of the type byte, the number and the payload of
-- the packet that it returns, with the bytes after the declared length ignored; the packet's fields
-- are in the ranges of the format. The type byte is any: if it is the code of a packet type, the frame
-- is what `encode` writes for that type and payload under that number.
pub decode_canonical :
    (now : ℕ) (bytes : Buffer) (p : Packet)
    → All IsByte bytes
    → decode now bytes ≡ some p
    → (extra : Buffer) × (bytes ≡ frame p.type p.id p.payload ++ extra)
      × (p.type < 256)
      × (p.id < u16_mod)
      × (length p.payload < u32_mod)
      × (p.timestamp ≡ now)
      × ((q : BinaryProtocol) (ty : PacketType)
          → code ty ≡ p.type
          → (next_sequence q).1 ≡ p.id
          → (encode q ty p.payload).1 ≡ some (frame p.type p.id p.payload))
unfolding decode frame
decode_canonical now (m0 ∷ m1 ∷ m2 ∷ m3 ∷ v ∷ t ∷ i0 ∷ i1 ∷ l0 ∷ l1 ∷ l2 ∷ l3 ∷ c ∷ rest) p b h =
    let len : ℕ = u32_of l0 l1 l2 l3 in
    let passed = decode_passed now m0 m1 m2 m3 v t i0 i1 l0 l1 l2 l3 c rest p h in
    let short : length (take len rest) ≡ len = omega (arith, length-take len rest, passed.2) in
    rw passed.4 (
      drop len rest,
      ground (arith, passed, take-append-drop len rest, short),
      omega arith,
      omega arith,
      omega (arith, short),
      refl,
      λ q ty. encode-eq-frame q ty t (u16_of i0 i1) (take len rest) (omega (arith, short)),
    )
decode_canonical now [] p b h = cc
decode_canonical now _ p b h = cc
