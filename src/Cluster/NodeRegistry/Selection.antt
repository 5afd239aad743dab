-- ===== src/Cluster/NodeRegistry/Selection.antt =====
-- Which node is the least loaded.
use mathlib.Core.List.{append-nil, append_assoc}
use sync_engine.Base.{
  ◌≤◌, ◌<◌, ◌≡◌, refl, sym, ◌∙◌, ap, ◌⊎◌, inl, inr, String, Option, none, some, List, [], ◌∷◌, ◌++◌,
  arith, ltb, filter, All, All-append, All-map, str_eq, if◌then◌else◌, Bool-cases,
}
use sync_engine.Core.Types.{NodeInfo}
use sync_engine.Cluster.NodeRegistry.{
  NodeRegistry, least_loaded, least_of, get_least_loaded_node, get_active_nodes,
}

-- The node is the first of the least loaded in the list.
pub data IsLeast (n : NodeInfo) (ns : List NodeInfo) : Type 0 where
  first :
      (before after : List NodeInfo)
      → ns ≡ before ++ n ∷ after
      → All (λ (m : NodeInfo). n.load < m.load) before
      → All (λ (m : NodeInfo). n.load ≤ m.load) after
      → IsLeast n ns

-- The nodes that a region leaves to choose from.
abbrev pub candidates : NodeRegistry → Option String → List NodeInfo
candidates r none = get_active_nodes r
candidates r (some region) =
    if str_eq region ""
    then get_active_nodes r
    else filter (λ (n : NodeInfo). str_eq n.region region) (get_active_nodes r)

All-lt :
    (n best : NodeInfo) (ms : List NodeInfo)
    → n.load < best.load
    → All (λ (m : NodeInfo). best.load ≤ m.load) ms
    → All (λ (m : NodeInfo). n.load < m.load) ms
All-lt n best ms h a = All-map _ _ ms (λ m le. omega arith) a

least_loaded-IsLeast :
    (best : NodeInfo) (before middle ns all : List NodeInfo)
    → All (λ (m : NodeInfo). best.load < m.load) before
    → All (λ (m : NodeInfo). best.load ≤ m.load) middle
    → all ≡ before ++ (best ∷ (middle ++ ns))
    → IsLeast (least_loaded best ns) all
unfolding least_loaded
least_loaded-IsLeast best before middle [] all b m e =
    first before middle (e ∙ ap (λ (l : List NodeInfo). before ++ (best ∷ l)) (append-nil middle)) b
      m
least_loaded-IsLeast best before middle (n ∷ ns) all b m e =
    elim (Bool-cases (ltb n.load best.load)) [
      | inl less ↦ rw less (
          least_loaded-IsLeast n (before ++ (best ∷ middle)) [] ns all
            (All-append _ before (best ∷ middle) (All-map _ _ before (λ x lt. ground arith) b)
              (ground arith, All-lt n best middle (ground arith) m))
            tt (e ∙ sym (append_assoc before (best ∷ middle) (n ∷ ns))))
      | inr more ↦ rw more (
          least_loaded-IsLeast best before (middle ++ n ∷ []) ns all b
            (All-append _ middle (n ∷ []) m (ground arith, tt))
            (e
              ∙ ap (λ (l : List NodeInfo). before ++ (best ∷ l))
                  (sym (append_assoc middle (n ∷ []) ns))))
    ]

least_of-IsLeast :
    (ns : List NodeInfo)
    → ((ns ≡ []) × (least_of ns ≡ none)) ⊎ ((n : NodeInfo) × (least_of ns ≡ some n) × IsLeast n ns)
least_of-IsLeast [] = inl (refl, refl)
least_of-IsLeast (n ∷ ns) =
    inr (least_loaded n ns, refl, least_loaded-IsLeast n [] [] ns (n ∷ ns) tt tt refl)

-- The least loaded node is the first of the least load among the active nodes, of the region if one
-- is given that is not empty; there is none exactly when there is no such node.
pub get_least_loaded_node-IsLeast :
    (r : NodeRegistry) (region : Option String)
    → ((candidates r region ≡ []) × (get_least_loaded_node r region ≡ none))
      ⊎ ((n : NodeInfo) × (get_least_loaded_node r region ≡ some n)
          × IsLeast n (candidates r region))
unfolding get_least_loaded_node
get_least_loaded_node-IsLeast r none = least_of-IsLeast (get_active_nodes r)
get_least_loaded_node-IsLeast r (some region) = elim (Bool-cases (str_eq region "")) [
  | inl e ↦ rw e (least_of-IsLeast (get_active_nodes r))
  | inr e ↦ rw e (least_of-IsLeast _)
]
