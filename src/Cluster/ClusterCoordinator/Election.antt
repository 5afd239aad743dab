-- ===== src/Cluster/ClusterCoordinator/Election.antt =====
-- Who wins an election, and that coordinators with the same view agree.
use sync_engine.Base.{
  ℕ, ◌+◌, ◌==◌, ltb, if◌then◌else◌, ◌≡◌, ◌≢◌, refl, sym, ap, ◌⊎◌, inl, inr, String, Bool, true,
  false, some, List, [], ◌∷◌, arith, All, Among, All-Among, Bool-cases, subst, ◌∙◌,
}
use sync_engine.Core.Types.{NodeInfo}
use sync_engine.Cluster.NodeRegistry.{get_active_nodes}
use sync_engine.Cluster.ClusterCoordinator.{
  ClusterCoordinator, earlier, first_of, winner, start_election,
}

-- What the election relies on of `localeCompare`: that it orders texts, of which it may find several
-- equal.
pub record IsOrder (before : String → String → Bool) : Type 0 where
  pub irrefl : (a : String) → before a a ≡ false
  pub trans : (a b c : String) → before a b ≡ true → before b c ≡ true → before a c ≡ true
  pub weak : (a b c : String) → before a c ≡ true → (before a b ≡ true) ⊎ (before b c ≡ true)

first_of_less :
    (before : String → String → Bool) (best n : NodeInfo) (ns : List NodeInfo)
    → earlier before n best ≡ true
    → first_of before best (n ∷ ns) ≡ first_of before n ns
unfolding first_of
first_of_less before best n ns e = rw e refl

first_of_more :
    (before : String → String → Bool) (best n : NodeInfo) (ns : List NodeInfo)
    → earlier before n best ≡ false
    → first_of before best (n ∷ ns) ≡ first_of before best ns
unfolding first_of
first_of_more before best n ns e = rw e refl

module _ (before : String → String → Bool) (order : IsOrder before) where
  earlier_trans :
      (a b c : NodeInfo)
      → earlier before a b ≡ true
      → earlier before b c ≡ true
      → earlier before a c ≡ true
  unfolding earlier
  earlier_trans a b c p q = ground (arith, order.trans a.id b.id c.id)

  -- None of the nodes comes before this one.
  abbrev Leads : NodeInfo → List NodeInfo → Type 0
  Leads w = All (λ m. earlier before m w ≡ false)

  earlier_weak :
      (a b c : NodeInfo)
      → earlier before a c ≡ true
      → (earlier before a b ≡ true) ⊎ (earlier before b c ≡ true)
  unfolding earlier
  earlier_weak a b c h = ground (arith, order.weak a.id b.id c.id)

  first_of-Leads :
      (best : NodeInfo) (ns : List NodeInfo) → Leads (first_of before best ns) (best ∷ ns)
  first_of-Leads best [] = (unfold first_of earlier in ground (arith, order.irrefl best.id), tt)
  first_of-Leads best (n ∷ ns) = elim (Bool-cases (earlier before n best)) [
    | inl less ↦
        let ih = first_of-Leads n ns in
        subst (λ w. Leads w (best ∷ n ∷ ns)) (sym (first_of_less before best n ns less))
          (ground (arith, ih, earlier_trans n best (first_of before n ns)), ih)
    | inr more ↦
        let ih = first_of-Leads best ns in
        subst (λ w. Leads w (best ∷ n ∷ ns)) (sym (first_of_more before best n ns more))
          (ih.0, (ground (arith, ih, earlier_weak n best (first_of before best ns)), ih.1))
  ]

skip : (w best n : NodeInfo) (ns : List NodeInfo) → Among w (best ∷ ns) → Among w (best ∷ n ∷ ns)
skip w best n ns (inl e) = inl e
skip w best n ns (inr m) = inr (inr m)

first_of-Among :
    (before : String → String → Bool) (best : NodeInfo) (ns : List NodeInfo)
    → Among (first_of before best ns) (best ∷ ns)
first_of-Among before best [] = unfold first_of in inl refl
first_of-Among before best (n ∷ ns) = elim (Bool-cases (earlier before n best)) [
  | inl less ↦
      subst (λ w. Among w (best ∷ n ∷ ns)) (sym (first_of_less before best n ns less))
        (inr (first_of-Among before n ns))
  | inr more ↦
      subst (λ w. Among w (best ∷ n ∷ ns)) (sym (first_of_more before best n ns more))
        (skip _ best n ns (first_of-Among before best ns))
]

-- For an order of the identifiers, in which some may be equal: an election raises the term by one. With an active
-- node in the registry the new leader is one of the active nodes, and none of them comes before
-- it: none started earlier, nor at the same time with a lesser identifier. With none, the node
-- elects itself.
pub start_election_winner :
    (before : String → String → Bool) (c : ClusterCoordinator)
    → IsOrder before
    → let nodes = get_active_nodes c.registry in
      let (c', out) = start_election before c in
      (c'.term ≡ c.term + 1)
      × (((nodes ≡ []) × (c'.leader_id ≡ some c.local_node.id))
          ⊎ ((w : NodeInfo) × Among w nodes
              × All (λ m. earlier before m w ≡ false) nodes
              × (c'.leader_id ≡ some w.id)))
unfolding start_election
start_election_winner before c order = (refl, elected (get_active_nodes c.registry))
  where
    elected :
        (nodes : List NodeInfo)
        → ((nodes ≡ []) × (some (winner before c.local_node nodes) ≡ some c.local_node.id))
          ⊎ ((w : NodeInfo) × Among w nodes
              × All (λ m. earlier before m w ≡ false) nodes
              × (some (winner before c.local_node nodes) ≡ some w.id))
    elected [] = inl (refl, refl)
    elected (n ∷ ns) =
        inr
          (first_of before n ns, first_of-Among before n ns, first_of-Leads before order n ns, refl)

-- Each node of the one list is in the other, with the same identifier and start.
abbrev pub Covers : List NodeInfo → List NodeInfo → Type 0
Covers xs ys =
    (n : NodeInfo)
    → Among n xs
    → (m : NodeInfo) × Among m ys × (m.id ≡ n.id) × (m.started_at ≡ n.started_at)

-- Two nodes of the list with the same start, neither of whose identifiers comes before the other, are
-- the same node.
abbrev pub AreDistinct : (String → String → Bool) → List NodeInfo → Type 0
AreDistinct before nodes =
    (n m : NodeInfo)
    → Among n nodes
    → Among m nodes
    → n.started_at ≡ m.started_at
    → before n.id m.id ≡ false
    → before m.id n.id ≡ false
    → n.id ≡ m.id

earlier_congruent :
    (before : String → String → Bool) (n m w v : NodeInfo)
    → m.id ≡ n.id
    → m.started_at ≡ n.started_at
    → v.id ≡ w.id
    → v.started_at ≡ w.started_at
    → earlier before m v ≡ earlier before n w
unfolding earlier
earlier_congruent before n m w v p q p' q' =
    ap
      (λ (x : (String × ℕ) × (String × ℕ)).
        if x.0.1 == x.1.1 then before x.0.0 x.1.0 else ltb x.0.1 x.1.1)
      (λ i. ((p i, q i), (p' i, q' i)))

-- Nodes of which neither comes before the other started at the same time, and neither identifier
-- comes before the other.
tied :
    (before : String → String → Bool) (a b : NodeInfo)
    → earlier before a b ≡ false
    → earlier before b a ≡ false
    → (a.started_at ≡ b.started_at) × (before a.id b.id ≡ false) × (before b.id a.id ≡ false)
unfolding earlier
tied before a b h k = ground arith

-- For an order of the identifiers, in which some may be equal: coordinators whose registries hold active
-- nodes with the same identifiers and starts, at least one, elect the same leader, whatever the
-- order in which the nodes joined, whatever else the registries know of them, and whatever their
-- local nodes; provided that no two of the active nodes that started at the same time have different
-- identifiers that compare as equal.
pub elections_agree :
    (before : String → String → Bool) (c d : ClusterCoordinator)
    → IsOrder before
    → AreDistinct before (get_active_nodes c.registry)
    → Covers (get_active_nodes c.registry) (get_active_nodes d.registry)
    → Covers (get_active_nodes d.registry) (get_active_nodes c.registry)
    → get_active_nodes c.registry ≢ []
    → (start_election before c).0.leader_id ≡ (start_election before d).0.leader_id
elections_agree before c d order distinct there back some_ =
    elim ((start_election_winner before c order).1) [
      | inl (e, _) ↦ absurd (some_ e)
      | inr (w, m, l, e) ↦
          let (v, among_v, id_v, start_v) = there w m in
          elim ((start_election_winner before d order).1) [
            | inl (e', _) ↦ absurd (no_element v (subst (Among v) e' among_v))
            | inr (w', m', l', e') ↦
                let (v', among_v', id_v', start_v') = back w' m' in
                let first : earlier before w v' ≡ false =
                  earlier_congruent before v w w' v' (sym id_v) (sym start_v) id_v' start_v'
                  ∙ All-Among _ v _ l' among_v in
                let second : earlier before v' w ≡ false = All-Among _ v' _ l among_v' in
                let (same, up, down) = tied before w v' first second in
                e ∙ ap some (distinct w v' m among_v' same up down ∙ id_v') ∙ sym e'
          ]
    ]
  where
    no_element : (w : NodeInfo) → Among w [] → ⊥
    no_element w m = elim m [ ]
