-- ===== src/Network/ConnectionPool/Given.antt =====
-- Which connection a call of `acquire` of src/network/connection-pool.ts gives.
use sync_engine.Base.{
  ℕ, zero, suc, ◌<◌, ◌≡◌, ◌≢◌, refl, sym, ap, ◌∙◌, inl, inr, String, true, false, Option, none,
  some, List, [], ◌∷◌, ◌++◌, arith, leb, length, get_elem?, or_else, get_elem?-end,
  get_elem?-set_elem_self, get_elem?-set_elem_ne, set_elem, Among, subst, Option-cases, Bool-cases,
}
use sync_engine.Base.Map
use sync_engine.Network.ConnectionPool.{
  ConnectionPool, PooledConnection, array_of, find_free, is_free, change, taken, pool_of,
  begin_from, begin_acquire, finish_acquire, Key, go_on, create_connection, acquire,
}
use sync_engine.Network.ConnectionPool.Acquire.{with_array}

abbrev at : List PooledConnection → Option ℕ → Option PooledConnection
at objects none = none
at objects (some ref) = get_elem? objects ref

find_free-some :
    (objects : List PooledConnection) (refs : List ℕ) (ref : ℕ)
    → find_free objects refs ≡ some ref
    → (c : PooledConnection) × (get_elem? objects ref ≡ some c)
      × (is_free c ≡ true)
      × Among ref refs
unfolding find_free
find_free-some objects [] ref h = absurd (cc h)
find_free-some objects (q ∷ refs) ref h = elim (Option-cases (get_elem? objects q)) [
  | inl e ↦
      let (c, there, free, among) =
        find_free-some objects refs ref (sym (rw (e, find_free) refl) ∙ h) in
      (c, there, free, inr among)
  | inr (c, e) ↦ elim (Bool-cases (is_free c)) [
    | inl t ↦
        let same : some q ≡ some ref = sym (rw (e, find_free, t) refl) ∙ h in
        (c, ap (at objects) (sym same) ∙ e, t, inl (sym (ap (λ o. or_else o 0) same)))
    | inr t ↦
        let (d, there, free, among) =
          find_free-some objects refs ref (sym (rw (e, find_free, t) refl) ∙ h) in
        (d, there, free, inr among)
  ]
]

get_elem?-some {ℓ} :
    {A : Type ℓ} (xs : List A) (i : ℕ) (x : A) → get_elem? xs i ≡ some x → i < length xs
get_elem?-some [] i x h = absurd (cc h)
get_elem?-some (y ∷ xs) zero x h = omega arith
get_elem?-some (y ∷ xs) (suc i) x h = omega (arith, get_elem?-some xs i x h)

-- The references that the pool has for a host.
abbrev pub held_refs : ConnectionPool → String → List ℕ
held_refs s key = elim (Map.get s.connections key) [ none ↦ [] | some r ↦ array_of s r ]

-- The connection that a call has got under a reference: one of the host's, open and in nobody's use, or
-- a new one where there was room for it, and in use after the call either way. No other connection
-- has changed.
pub data IsGiven (id host : String) (port now : ℕ) (opened : Option ℕ) (max : ℕ) (refs : List ℕ)
    (objects objects' : List PooledConnection) (ref : ℕ) : Type 0 where
  reused :
      (c : PooledConnection)
      → Among ref refs
      → get_elem? objects ref ≡ some c
      → c.in_use ≡ false
      → c.is_open ≡ true
      → get_elem? objects' ref ≡ some (record c { in_use = true; last_used = now })
      → ((q : ℕ) → ref ≢ q → get_elem? objects' q ≡ get_elem? objects q)
      → IsGiven id host port now opened max refs objects objects' ref
  opened_new :
      (at_time : ℕ)
      → opened ≡ some at_time
      → length refs < max
      → ref ≡ length objects
      → objects'
        ≡ objects
          ++ record {
            id = id;
            host = host;
            port = port;
            created_at = at_time;
            last_used = at_time;
            in_use = true;
            error_count = 0;
            is_open = true;
          }
            ∷ []
      → IsGiven id host port now opened max refs objects objects' ref

finish_acquire-IsGiven :
    (s : ConnectionPool) (key id host : String) (port now r ref : ℕ) (opened : Option ℕ)
    → length (array_of s r) < s.max_per_host
    → (finish_acquire s key r (create_connection id host port opened)).1 ≡ some ref
    → IsGiven id host port now opened s.max_per_host
        (array_of s r)
        s.objects
        (finish_acquire s key r (create_connection id host port opened)).0.objects
        ref
unfolding finish_acquire create_connection
finish_acquire-IsGiven s key id host port now r ref none lt h = absurd (cc h)
finish_acquire-IsGiven s key id host port now r ref (some t) lt h =
    opened_new t refl lt (ground (arith, h)) refl

go_on-IsGiven :
    (s : ConnectionPool) (key id host : String) (port now r ref : ℕ) (opened : Option ℕ)
    → (go_on key (create_connection id host port opened) (begin_from s r now)).1 ≡ some ref
    → IsGiven id host port now opened s.max_per_host
        (array_of s r)
        s.objects
        (go_on key (create_connection id host port opened) (begin_from s r now)).0.objects
        ref
unfolding go_on begin_from
go_on-IsGiven s key id host port now r ref opened h =
    elim (Option-cases (find_free s.objects (array_of s r))) [
      | inl e ↦ elim (Bool-cases (leb s.max_per_host (length (array_of s r)))) [
        | inl f ↦
            let other : none ≡ some ref = sym (rw (e, begin_from, f) refl) ∙ h in absurd (cc other)
        | inr f ↦
            rw (e, begin_from, f)
              (finish_acquire-IsGiven s key id host port now r ref opened (ground (arith, f))
                (sym (rw (e, begin_from, f) refl) ∙ h))
      ]
      | inr (q, e) ↦
          let same : some q ≡ some ref = sym (rw (e, begin_from) refl) ∙ h in
          let (c, there, free, among) = find_free-some s.objects (array_of s r) q e in
          let is_q : q ≡ ref = ap (λ o. or_else o 0) same in
          let objects : (go_on key (create_connection id host port opened)
                (begin_from s r now)).0.objects
              ≡ set_elem s.objects q (taken now c) =
            rw (e, begin_from, there, change) refl in
          reused c (subst (λ x. Among x (array_of s r)) is_q among)
            (ap (at s.objects) (sym same) ∙ there) (ground (arith, free)) (ground (arith, free))
            (ap (λ os. get_elem? os ref) objects
              ∙ ap (at (set_elem s.objects q (taken now c))) (sym same)
              ∙ get_elem?-set_elem_self s.objects q (taken now c)
                  (get_elem?-some s.objects q c there))
            (λ j ne.
              ap (λ os. get_elem? os j) objects
              ∙ get_elem?-set_elem_ne s.objects q j (taken now c) (λ p. ne (sym is_q ∙ p)))
    ]

-- When `acquire` gives a connection, it either was one of those that the pool has for the host, open and
-- in nobody's use, and is in use from then on with the time of the call as its last use, or it has
-- been opened by this call, where the pool had fewer for the host than it may have, and is open and
-- in use; no other connection is changed.
pub acquire-IsGiven :
    (k : Key) (s : ConnectionPool) (host : String) (port now : ℕ) (id : String) (opened : Option ℕ)
    (ref : ℕ)
    → (acquire k s host port now id opened).1 ≡ some ref
    → IsGiven id host port now opened s.max_per_host
        (held_refs s (k host port))
        s.objects
        (acquire k s host port now id opened).0.objects
        ref
unfolding acquire begin_acquire
acquire-IsGiven k s host port now id opened ref h =
    elim (Option-cases (Map.get s.connections (k host port))) [
      | inl e ↦
          let eq : acquire k s host port now id opened
              ≡ go_on (k host port) (create_connection id host port opened)
                  (begin_from (with_array s) (length s.arrays) now) =
            rw (e, acquire, begin_acquire, pool_of) refl in
          let fresh : array_of (with_array s) (length s.arrays) ≡ [] =
            ap (λ o. or_else o []) (get_elem?-end s.arrays []) in
          rw (e, held_refs, eq)
            (subst
              (λ refs.
                IsGiven id host port now opened s.max_per_host refs s.objects
                  (go_on (k host port) (create_connection id host port opened)
                    (begin_from (with_array s) (length s.arrays) now)).0.objects
                  ref)
              fresh
              (go_on-IsGiven (with_array s) (k host port) id host port now (length s.arrays) ref
                opened (sym (ap (λ (x : ConnectionPool × Option ℕ). x.1) eq) ∙ h)))
      | inr (r, e) ↦
          let eq : acquire k s host port now id opened
              ≡ go_on (k host port) (create_connection id host port opened) (begin_from s r now) =
            rw (e, acquire, begin_acquire, pool_of) refl in
          rw (e, held_refs, eq)
            (go_on-IsGiven s (k host port) id host port now r ref opened
              (sym (ap (λ (x : ConnectionPool × Option ℕ). x.1) eq) ∙ h))
    ]
