-- ===== src/Utils/Tests.antt =====
-- Runs of `RingBuffer` and `BufferPool` of src/utils/buffer-pool.ts.
use sync_engine.Base.{ℕ, ◌≡◌, ◌<◌, ◌⊎◌, refl, true, false, some, none, List, [], ◌∷◌, arith, length}
use sync_engine.Utils.RingBuffer.{RingBuffer, create, push, pop, peek, to_array}
use sync_engine.Utils.RingBuffer.Refine.{Repr, push_refines, pop_refines}
use sync_engine.Utils.BufferPool.{BufferPool, IsValid}

-- Two places, of which the first push has gone round: 8 at 1 and 9 at 0.
abbrev ring : RingBuffer ℕ
ring = record { buffer = some 9 ∷ some 8 ∷ []; head = 1; tail = 1; count = 2; capacity = 2 }

abbrev queued : List ℕ
queued = 8 ∷ 9 ∷ []

abbrev one_item : List ℕ
one_item = 9 ∷ []

abbrev one_left : RingBuffer ℕ
one_left = record ring { buffer = some 9 ∷ none ∷ []; head = 0; count = 1 }

pushed : (push (push (pop (push (push (create 2) 7).0 8).0).0 9).0 6).0 ≡ ring
unfolding push pop create
pushed = refl

listed : to_array ring ≡ some 8 ∷ some 9 ∷ []
unfolding to_array
listed = refl

ring-Repr : Repr ring queued
ring-Repr = record {
  size = refl;
  count_eq = refl;
  fits = omega arith;
  head_in = omega arith;
  tail_eq = refl;
  holds = (refl, (refl, tt));
}

one_left-Repr : Repr one_left one_item
one_left-Repr = record {
  size = refl;
  count_eq = refl;
  fits = omega arith;
  head_in = omega arith;
  tail_eq = refl;
  holds = (refl, tt);
}

push_refines_example :
    ((length one_item ≡ 2) × (push one_left 5 ≡ (one_left, false)))
    ⊎ ((length one_item < 2) × ((push one_left 5).1 ≡ true) × Repr (push one_left 5).0 (9 ∷ 5 ∷ []))
push_refines_example = push_refines 5 one_left-Repr

pop_refines_example :
    ((queued ≡ []) × (pop ring ≡ (ring, none)) × (peek ring ≡ none))
    ⊎ ((x : ℕ) × (rest : List ℕ) × (queued ≡ x ∷ rest)
        × ((pop ring).1 ≡ some x)
        × (peek ring ≡ some x)
        × Repr (pop ring).0 rest)
pop_refines_example = pop_refines ring-Repr

-- A pool of two buffers at most, with one that was written to.
abbrev pool : BufferPool
pool = record { pool = (1 ∷ 2 ∷ 3 ∷ []) ∷ []; buffer_size = 3; max_pool_size = 2 }

pool-IsValid : IsValid pool
pool-IsValid = record { sized = (refl, tt); bounded = omega arith }
