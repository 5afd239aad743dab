-- ===== src/Utils/RingBuffer/Refine.antt =====
-- The ring buffer against a list of at most `capacity` items, the oldest first.
use native.Mathlib.Nat.{mod-add-mod, mod-eq_of_lt, mod-eq-sub-mod, add-zero}
use native.Mathlib.Decide.{dec_lt, ℕ_discrete}
use sync_engine.Base.{
  ℕ, zero, suc, ◌+◌, ◌-◌, ◌%◌, ◌≤◌, ◌<◌, ◌≡◌, ◌≢◌, refl, sym, ap, subst, ◌∙◌, ◌⊎◌, inl, inr, true,
  false, Option, none, some, List, [], ◌∷◌, ◌++◌, map, arith, ◌==◌, length, get_elem?, set_elem,
  length-append, length-set_elem, get_elem?-set_elem_self, get_elem?-set_elem_ne, length-replicate,
}
use sync_engine.Utils.RingBuffer.{RingBuffer, create, push, pop, peek, clear, read_from, to_array}

-- Going round less than a whole turn ends somewhere else.
turn_short :
    (size start gap : ℕ) → start < size → 0 < gap → gap < size → (start + gap) % size ≢ start
turn_short size start gap inside moved short =
    let wrapped = start + gap - size in
    elim (dec_lt (start + gap) size) [
      | yes stays ↦ let same = mod-eq_of_lt stays in omega (arith, same)
      | no turns ↦
          let once = mod-eq-sub-mod {n = start + gap} {m = size} (omega arith) in
          let rest = mod-eq_of_lt {n = wrapped} {m = size} (omega arith) in
          omega (arith, once, rest)
    ]

step_index : (cap h n : ℕ) → ((h + 1) % cap + n) % cap ≡ (h + suc n) % cap
step_index cap h n = rw mod-add-mod (ap (λ k. k % cap) (omega arith))

no_step : (cap h : ℕ) → h < cap → (h + 0) % cap ≡ h
no_step cap h hh = rw add-zero (mod-eq_of_lt hh)

full_turn : (cap h : ℕ) → h < cap → h ≡ ((h + 1) % cap + (cap - 1)) % cap
full_turn cap h hh = rw mod-add-mod (
    omega (
      arith,
      mod-eq-sub-mod {n = h + 1 + (cap - 1)} {m = cap} (omega arith),
      mod-eq_of_lt {n = h + 1 + (cap - 1) - cap} {m = cap} (omega arith),
    ))

module _ {ℓ} {A : Type ℓ} where
  -- The slots from index `h` on, going round at `cap`, hold the items of the list.
  abbrev pub Holds : List (Option A) → ℕ → ℕ → List A → Type ℓ
  Holds buf cap h [] = Unit
  Holds buf cap h (x ∷ q) = (get_elem? buf h ≡ some (some x)) × Holds buf cap ((h + 1) % cap) q

  -- The buffer represents the queue of the items that it holds.
  pub record Repr (r : RingBuffer A) (q : List A) : Type ℓ where
    pub size : length r.buffer ≡ r.capacity
    pub count_eq : r.count ≡ length q
    pub fits : r.count ≤ r.capacity
    pub head_in : r.head ≤ r.capacity - 1
    pub tail_eq : r.tail ≡ (r.head + r.count) % r.capacity
    pub holds : Holds r.buffer r.capacity r.head q

  -- A write to the slot that is `n` steps on leaves a window of at most `n` slots as it was.
  Holds-set_elem :
      (buf : List (Option A)) (cap h n i : ℕ) (v : Option A) (q : List A)
      → h < cap
      → n < cap
      → length q ≤ n
      → i ≡ (h + n) % cap
      → Holds buf cap h q
      → Holds (set_elem buf i v) cap h q
  Holds-set_elem buf cap h n i v [] hh hn hq e a = tt
  Holds-set_elem buf cap h zero i v (x ∷ q) hh hn hq e a = absurd (omega arith)
  Holds-set_elem buf cap h (suc n) i v (x ∷ q) hh hn hq e a = (
    get_elem?-set_elem_ne buf i h v (λ p. turn_short cap h (suc n) hh (omega arith) hn (sym e ∙ p))
        ∙ a.0,
    Holds-set_elem buf cap ((h + 1) % cap) n i v q (omega arith) (omega arith) (omega arith)
        (e ∙ sym (step_index cap h n)) a.1,
  )

  Holds-snoc :
      (buf : List (Option A)) (cap h : ℕ) (q : List A) (x : A)
      → h < cap
      → get_elem? buf ((h + length q) % cap) ≡ some (some x)
      → Holds buf cap h q
      → Holds buf cap h (q ++ x ∷ [])
  Holds-snoc buf cap h [] x hh e a =
      (subst (λ i. get_elem? buf i ≡ some (some x)) (no_step cap h hh) e, tt)
  Holds-snoc buf cap h (y ∷ q) x hh e a = (
    a.0,
    Holds-snoc buf cap ((h + 1) % cap) q x (omega arith) (rw (step_index cap h (length q)) e) a.1,
  )

  read_from-Holds :
      (buf : List (Option A)) (cap h : ℕ) (q : List A)
      → Holds buf cap h q
      → read_from buf cap h (length q) ≡ map some q
  unfolding read_from
  read_from-Holds buf cap h [] a = refl
  read_from-Holds buf cap h (x ∷ q) a = rw (a.0, read_from-Holds buf cap ((h + 1) % cap) q a.1)

module _ {ℓ} {A : Type ℓ} where
  -- A new buffer represents the empty queue.
  pub create-Repr : (capacity : ℕ) → Repr (create {A = A} capacity) []
  unfolding create
  create-Repr capacity = record {
    size = length-replicate capacity none;
    count_eq = refl;
    fits = omega arith;
    head_in = omega arith;
    tail_eq = omega arith;
    holds = tt;
  }

  room : {r : RingBuffer A} {q : List A} → Repr r q → r.count ≢ r.capacity → r.head < r.capacity
  room v ne = omega (arith, v.fits, v.head_in)

  push_room-Repr :
      {r : RingBuffer A} {q : List A} (x : A)
      → Repr r q
      → r.count ≢ r.capacity
      → Repr
          (record r {
            buffer = set_elem r.buffer r.tail (some x);
            tail = (r.tail + 1) % r.capacity;
            count = r.count + 1;
          })
          (q ++ x ∷ [])
  push_room-Repr {r} {q} x v ne = record {
    size = omega (arith, length-set_elem r.buffer r.tail (some x), v.size);
    count_eq = omega (arith, length-append q (x ∷ []), v.count_eq);
    fits = omega (arith, v.fits);
    head_in = v.head_in;
    tail_eq = rw (v.tail_eq, mod-add-mod) (ap (λ k. k % r.capacity) (omega arith));
    holds =
        Holds-snoc _ r.capacity r.head q x (room v ne)
          (rw (← v.count_eq, ← v.tail_eq)
            (get_elem?-set_elem_self r.buffer r.tail (some x)
              (omega (arith, v.tail_eq, v.size, room v ne))))
          (Holds-set_elem r.buffer r.capacity r.head r.count r.tail (some x) q (room v ne)
            (omega (arith, v.fits)) (omega (arith, v.count_eq)) v.tail_eq v.holds);
  }

  -- On a ring that represents a queue, `push` refuses exactly when the queue is full, leaving the
  -- ring as it was, and otherwise adds the item at the end.
  pub push_refines :
      {r : RingBuffer A} {q : List A} (x : A)
      → Repr r q
      → ((length q ≡ r.capacity) × (push r x ≡ (r, false)))
        ⊎ ((length q < r.capacity) × ((push r x).1 ≡ true) × Repr (push r x).0 (q ++ x ∷ []))
  unfolding push
  push_refines {r} {q} x v = elim (ℕ_discrete r.count r.capacity) [
    | yes e ↦ inl (omega (arith, v.count_eq), ground arith)
    | no ne ↦
        let test : (r.count == r.capacity) ≡ false = ground arith in
        inr (omega (arith, v.count_eq, v.fits), rw test, rw test (push_room-Repr x v ne))
  ]

  pop_rest-Repr :
      {r : RingBuffer A} (x : A) (q : List A)
      → Repr r (x ∷ q)
      → Repr
          (record r {
            buffer = set_elem r.buffer r.head none;
            head = (r.head + 1) % r.capacity;
            count = r.count - 1;
          })
          q
  pop_rest-Repr {r} x q v = record {
    size = omega (arith, length-set_elem r.buffer r.head none, v.size);
    count_eq = omega (arith, v.count_eq);
    fits = omega (arith, v.fits);
    head_in = omega (arith, v.count_eq, v.fits);
    tail_eq = rw (v.tail_eq, mod-add-mod) (ap (λ k. k % r.capacity) (omega (arith, v.count_eq)));
    holds =
        Holds-set_elem r.buffer r.capacity ((r.head + 1) % r.capacity) (r.capacity - 1) r.head none
          q (omega (arith, v.count_eq, v.fits)) (omega (arith, v.count_eq, v.fits))
          (omega (arith, v.count_eq, v.fits))
          (full_turn r.capacity r.head (omega (arith, v.count_eq, v.fits, v.head_in))) (v.holds).1;
  }

  -- On a ring that represents a queue, `pop` and `peek` return `undefined` on the empty queue
  -- only, which `pop` leaves as it was; else both return the oldest item, and `pop` leaves the
  -- rest.
  pub pop_refines :
      {r : RingBuffer A} {q : List A}
      → Repr r q
      → ((q ≡ []) × (pop r ≡ (r, none)) × (peek r ≡ none))
        ⊎ ((x : A) × (rest : List A) × (q ≡ x ∷ rest)
            × ((pop r).1 ≡ some x)
            × (peek r ≡ some x)
            × Repr (pop r).0 rest)
  unfolding pop peek
  pop_refines {r} {q = []} v =
      let test : (r.count == 0) ≡ true = ground (arith, v.count_eq) in inl (refl, rw test, rw test)
  pop_refines {r} {q = x ∷ rest} v =
      let test : (r.count == 0) ≡ false = ground (arith, v.count_eq) in
      inr (
        x,
        rest,
        refl,
        rw (test, (v.holds).0),
        rw (test, (v.holds).0),
        rw test (pop_rest-Repr x rest v),
      )

  -- On a ring that represents a queue, `toArray` lists the queue, the oldest item first, and
  -- `clear` empties it.
  pub to_array_refines :
      {r : RingBuffer A} {q : List A} → Repr r q → (to_array r ≡ map some q) × Repr (clear r) []
  unfolding to_array clear
  to_array_refines {r} {q} v =
      (rw v.count_eq (read_from-Holds r.buffer r.capacity r.head q v.holds), create-Repr r.capacity)
