-- ===== src/Network/Protocol/Corruption.antt =====
-- What the checksum detects.
use sync_engine.Base.{
  ℕ, zero, suc, ◌+◌, ◌%◌, ◌<◌, ◌≡◌, ◌≢◌, refl, sym, ◌∙◌, none, [], ◌∷◌, ◌++◌, length, take, arith,
  length-append,
}
use sync_engine.Network.Protocol.{Buffer, u32_mod, frame, compute_checksum, sum_bytes, decode}

sum_bytes-append : (s : ℕ) (xs ys : Buffer) → sum_bytes s (xs ++ ys) ≡ sum_bytes (sum_bytes s xs) ys
unfolding sum_bytes
sum_bytes-append s [] ys = refl
sum_bytes-append s (x ∷ xs) ys = sum_bytes-append ((s + x) % 256) xs ys

sum_bytes-injective :
    (s s' : ℕ) (ys : Buffer) → s < 256 → s' < 256 → sum_bytes s ys ≡ sum_bytes s' ys → s ≡ s'
unfolding sum_bytes
sum_bytes-injective s s' [] h h' e = e
sum_bytes-injective s s' (y ∷ ys) h h' e =
    omega
      (arith, sum_bytes-injective ((s + y) % 256) ((s' + y) % 256) ys (omega arith) (omega arith) e)

sum_bytes-lt : (s : ℕ) (ys : Buffer) → s < 256 → sum_bytes s ys < 256
unfolding sum_bytes
sum_bytes-lt s [] h = h
sum_bytes-lt s (y ∷ ys) h = sum_bytes-lt ((s + y) % 256) ys (omega arith)

take_exact : (n : ℕ) (xs : Buffer) → length xs ≡ n → take n xs ≡ xs
take_exact zero [] e = refl
take_exact (suc n) [] e = refl
take_exact zero (x ∷ xs) e = absurd (omega arith)
take_exact (suc n) (x ∷ xs) e = rw (take_exact n xs (omega arith))

pub checksum_changes :
    (xs ys : Buffer) (a b : ℕ)
    → a < 256
    → b < 256
    → a ≢ b
    → compute_checksum (xs ++ a ∷ ys) ≢ compute_checksum (xs ++ b ∷ ys)
unfolding compute_checksum sum_bytes
checksum_changes xs ys a b ha hb ne e =
    let s : ℕ = sum_bytes 0 xs in
    let same : sum_bytes ((s + a) % 256) ys ≡ sum_bytes ((s + b) % 256) ys =
      sym (sum_bytes-append 0 xs (a ∷ ys)) ∙ e ∙ sum_bytes-append 0 xs (b ∷ ys) in
    omega (
      arith,
      sum_bytes-lt 0 xs (omega arith),
      sum_bytes-injective ((s + a) % 256) ((s + b) % 256) ys (omega arith) (omega arith) same,
    )

-- A frame of a payload shorter than 2^32 bytes in which one byte of the payload was changed to
-- another byte is rejected.
pub decode_rejects_changed_byte :
    (now type id a b : ℕ) (xs ys : Buffer)
    → a < 256
    → b < 256
    → a ≢ b
    → length (xs ++ a ∷ ys) < u32_mod
    → decode now (take 13 (frame type id (xs ++ a ∷ ys)) ++ (xs ++ b ∷ ys)) ≡ none
unfolding decode frame
decode_rejects_changed_byte now type id a b xs ys ha hb ne h =
    let n : ℕ = length (xs ++ a ∷ ys) in
    let split = λ (c : ℕ). length-append xs (c ∷ ys) in
    ground (
      arith,
      split a,
      split b,
      take_exact n (xs ++ b ∷ ys) (omega (arith, split a, split b)),
      checksum_changes xs ys a b ha hb ne,
    )
