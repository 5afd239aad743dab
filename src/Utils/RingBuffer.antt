-- ===== src/Utils/RingBuffer.antt =====
-- `RingBuffer<T>` of src/utils/buffer-pool.ts. A slot of the array is `undefined` (`none`) or holds
-- an item; a read outside the array is `undefined` too.
pub mod Refine
use sync_engine.Base.{
  ℕ, zero, suc, ◌+◌, ◌-◌, ◌%◌, Bool, true, false, Option, none, some, List, [], ◌∷◌, ◌==◌,
  replicate, get_elem?, set_elem, if◌then◌else◌,
}

pub record RingBuffer {ℓ} (A : Type ℓ) : Type ℓ where
  pub buffer : List (Option A)
  pub head : ℕ
  pub tail : ℕ
  pub count : ℕ
  pub capacity : ℕ

-- An array access.
abbrev pub slot {ℓ} : {A : Type ℓ} → Option (Option A) → Option A
slot none = none
slot (some x) = x

module _ {ℓ} {A : Type ℓ} where
  unfoldable pub create : ℕ → RingBuffer A
  create capacity = record {
    buffer = replicate capacity none;
    head = 0;
    tail = 0;
    count = 0;
    capacity = capacity;
  }

  unfoldable pub push : RingBuffer A → A → RingBuffer A × Bool
  push r item = if r.count == r.capacity then (r, false) else (
    record r {
      buffer = set_elem r.buffer r.tail (some item);
      tail = (r.tail + 1) % r.capacity;
      count = r.count + 1;
    },
    true,
  )

  unfoldable pub pop : RingBuffer A → RingBuffer A × Option A
  pop r = if r.count == 0 then (r, none) else (
    record r {
      buffer = set_elem r.buffer r.head none;
      head = (r.head + 1) % r.capacity;
      count = r.count - 1;
    },
    slot (get_elem? r.buffer r.head),
  )

  unfoldable pub peek : RingBuffer A → Option A
  peek r = if r.count == 0 then none else slot (get_elem? r.buffer r.head)

  abbrev pub is_full : RingBuffer A → Bool
  is_full r = r.count == r.capacity

  abbrev pub is_empty : RingBuffer A → Bool
  is_empty r = r.count == 0

  unfoldable pub clear : RingBuffer A → RingBuffer A
  unfolding create
  clear r = create r.capacity

  -- The loop of `toArray`, over the rounds left.
  unfoldable pub read_from : List (Option A) → ℕ → ℕ → ℕ → List (Option A)
  read_from buffer capacity idx zero = []
  read_from buffer capacity idx (suc n) =
      slot (get_elem? buffer idx) ∷ read_from buffer capacity ((idx + 1) % capacity) n

  unfoldable pub to_array : RingBuffer A → List (Option A)
  unfolding read_from
  to_array r = read_from r.buffer r.capacity r.head r.count
