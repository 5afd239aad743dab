-- ===== src/Utils/BufferPool.antt =====
-- `BufferPool` of src/utils/buffer-pool.ts. A buffer is the list of its bytes. The pool is used as
-- a stack: the head of the list is the end of the source's array.
use mathlib.Core.Path.{◌≡◌}
use sync_engine.Base.{
  ℕ, ◌≤◌, refl, ◌&&◌, List, [], ◌∷◌, arith, ltb, ◌==◌, length, replicate, if◌then◌else◌,
}

abbrev pub Buffer : Type 0
Buffer = List ℕ

pub record BufferPool : Type 0 where
  pub pool : List Buffer
  pub buffer_size : ℕ
  pub max_pool_size : ℕ

-- `buf.fill(0)`
fill_zero : Buffer → Buffer
fill_zero [] = []
fill_zero (b ∷ buf) = 0 ∷ fill_zero buf

pub acquire : BufferPool → BufferPool × Buffer
unfolding fill_zero
acquire p = elim p.pool [
  | [] ↦ (p, replicate p.buffer_size 0)
  | buf ∷ rest ↦ (record p { pool = rest }, fill_zero buf)
]

pub release : BufferPool → Buffer → BufferPool
release p buf =
    if length buf == p.buffer_size && ltb (length p.pool) p.max_pool_size
    then record p { pool = buf ∷ p.pool }
    else p

pub drain : BufferPool → BufferPool
drain p = record p { pool = [] }

abbrev AllSized : ℕ → List Buffer → Type 0
AllSized n [] = Unit
AllSized n (b ∷ bs) = (length b ≡ n) × AllSized n bs

-- Every pooled buffer has the pool's size, and the pool is within its bound.
pub record IsValid (p : BufferPool) : Type 0 where
  pub sized : AllSized p.buffer_size p.pool
  pub bounded : length p.pool ≤ p.max_pool_size

fill_zero-replicate : (buf : Buffer) → fill_zero buf ≡ replicate (length buf) 0
unfolding fill_zero
fill_zero-replicate [] = refl
fill_zero-replicate (b ∷ buf) = rw (fill_zero-replicate buf)

acquire_from :
    (p : BufferPool) (bufs : List Buffer)
    → p.pool ≡ bufs
    → IsValid p
    → ((acquire p).1 ≡ replicate p.buffer_size 0) × IsValid (acquire p).0
unfolding acquire
acquire_from p [] e v = ground (arith, v.sized, v.bounded)
acquire_from p (buf ∷ rest) e v = ground (arith, v.sized, v.bounded, fill_zero-replicate buf)

-- From a pool within its bound whose buffers all have its size, `acquire` hands out a buffer of
-- that size that is all zeros, whatever was written to the pooled ones, and leaves such a pool.
pub acquire_zeroed :
    (p : BufferPool)
    → IsValid p
    → ((acquire p).1 ≡ replicate p.buffer_size 0) × IsValid (acquire p).0
acquire_zeroed p v = acquire_from p p.pool refl v

-- `release` takes any buffer and keeps the pool within its bound and its buffers of one size.
pub release-IsValid : (p : BufferPool) (buf : Buffer) → IsValid p → IsValid (release p buf)
unfolding release
release-IsValid p buf v = ground (arith, v.sized, v.bounded)
