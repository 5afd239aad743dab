-- ===== src/Network/ConnectionPool/Acquire.antt =====
-- What calls of `acquire` of src/network/connection-pool.ts leave in the pool of a host.
use sync_engine.Base.{
  ℕ, ◌≤◌, ◌<◌, ◌≡◌, ◌≢◌, refl, ap, ◌∙◌, String, false, none, some, [], ◌∷◌, ◌++◌, arith, leb,
  length, or_else, length-append, get_elem?-end, get_elem?-append, length-set_elem,
  get_elem?-set_elem_self, get_elem?-set_elem_ne,
}
use sync_engine.Base.Map
use sync_engine.Base.Map.Laws.{get-set_self}
use sync_engine.Network.ConnectionPool.{
  ConnectionPool, PooledConnection, array_of, find_free, connecting, pool_of, begin_from,
  begin_acquire, finish_acquire,
}

-- The pool with one more empty array in its store.
abbrev pub with_array : ConnectionPool → ConnectionPool
with_array s = record s { arrays = s.arrays ++ [] ∷ [] }

begin_from-new :
    (s : ConnectionPool) (r now : ℕ)
    → array_of s r ≡ []
    → 1 ≤ s.max_per_host
    → begin_from s r now ≡ (s, connecting r)
unfolding begin_from find_free
begin_from-new s r now h le =
    let room : leb s.max_per_host (length (array_of s r)) ≡ false =
      ground (arith, le, ap length h) in
    let none_free : find_free s.objects (array_of s r) ≡ none = ap (find_free s.objects) h in
    rw (none_free, begin_from, room) refl

begin_acquire-new :
    (s : ConnectionPool) (key : String) (now : ℕ)
    → Map.get s.connections key ≡ none
    → 1 ≤ s.max_per_host
    → begin_acquire s key now ≡ (with_array s, connecting (length s.arrays))
unfolding begin_acquire
begin_acquire-new s key now e le =
    let pooled : pool_of s key ≡ (with_array s, length s.arrays) = rw (e, pool_of) refl in
    ap (λ (p : ConnectionPool × ℕ). begin_from p.0 p.1 now) pooled
    ∙ begin_from-new (with_array s) (length s.arrays) now
        (ap (λ o. or_else o []) (get_elem?-end s.arrays [])) le

array_of-finish_acquire :
    (s : ConnectionPool) (key : String) (r : ℕ) (c : PooledConnection)
    → r < length s.arrays
    → array_of (finish_acquire s key r (some c)).0 r ≡ array_of s r ++ length s.objects ∷ []
unfolding finish_acquire
array_of-finish_acquire s key r c lt =
    ap (λ o. or_else o [])
      (get_elem?-set_elem_self s.arrays r (array_of s r ++ length s.objects ∷ []) lt)

array_of-finish_acquire_ne :
    (s : ConnectionPool) (key : String) (r q : ℕ) (c : PooledConnection)
    → r ≢ q
    → array_of (finish_acquire s key r (some c)).0 q ≡ array_of s q
unfolding finish_acquire
array_of-finish_acquire_ne s key r q c ne =
    ap (λ o. or_else o []) (get_elem?-set_elem_ne s.arrays r q _ ne)

-- Two calls for a host without a pool, of which the second starts before the connection of the first is
-- open, with room for one at least: both wait, each with an array of its own. Once the first connection
-- is there the host has the first array, and once the second is there it has the second one, which holds
-- the second connection alone: the first is in the pool no longer.
pub begin_acquire_raced :
    (s : ConnectionPool) (key : String) (now later : ℕ) (c d : PooledConnection)
    → Map.get s.connections key ≡ none
    → 1 ≤ s.max_per_host
    → let s₁ = with_array s in
      let s₂ = with_array s₁ in
      let n = length s.arrays in
      let m = length s₁.arrays in
      let s₃ = (finish_acquire s₂ key n (some c)).0 in
      let (s₄, answer) = finish_acquire s₃ key m (some d) in
      (begin_acquire s key now ≡ (s₁, connecting n))
      × (begin_acquire s₁ key later ≡ (s₂, connecting m))
      × (Map.get s₃.connections key ≡ some n)
      × (array_of s₃ n ≡ length s.objects ∷ [])
      × (answer ≡ some (length s₃.objects))
      × (Map.get s₄.connections key ≡ some m)
      × (array_of s₄ m ≡ length s₃.objects ∷ [])
unfolding finish_acquire
begin_acquire_raced s key now later c d e le =
    let s₁ = with_array s in
    let s₂ = with_array s₁ in
    let n = length s.arrays in
    let m = length s₁.arrays in
    let s₃ = (finish_acquire s₂ key n (some c)).0 in
    let size = length-append s.arrays ([] ∷ []) in
    let size' = length-append s₁.arrays ([] ∷ []) in
    let ne : n ≢ m = λ same. omega (arith, same, size) in
    let fresh : array_of s₂ n ≡ [] =
      ap (λ o. or_else o [])
        (get_elem?-append s₁.arrays ([] ∷ []) n (omega (arith, size))
          ∙ get_elem?-end s.arrays []) in
    let fresh' : array_of s₃ m ≡ [] =
      array_of-finish_acquire_ne s₂ key n m c ne
      ∙ ap (λ o. or_else o []) (get_elem?-end s₁.arrays []) in
    (
      begin_acquire-new s key now e le,
      begin_acquire-new s₁ key later e le,
      get-set_self s.connections key n,
      array_of-finish_acquire s₂ key n c (omega (arith, size, size'))
          ∙ ap (λ xs. xs ++ length s.objects ∷ []) fresh,
      refl,
      get-set_self s₃.connections key m,
      array_of-finish_acquire s₃ key m d (
            omega
              (arith, size', length-set_elem s₂.arrays n (array_of s₂ n ++ length s.objects ∷ [])))
          ∙ ap (λ xs. xs ++ length s₃.objects ∷ []) fresh',
    )
