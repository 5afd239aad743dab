-- ===== src/Core/StateManager/Reachable.antt =====
-- Every state that the calls of src/core/state-manager.ts lead to keeps its histories.
use sync_engine.Base.{
  ℕ, zero, suc, ◌≡◌, refl, sym, ap, ◌∙◌, inl, inr, String, Option, none, some, List, [], ◌∷◌, ◌++◌,
  arith, length, get_elem?, ◌==◌, or_else, str_eq, eq_iff, if◌then◌else◌, Option-cases, Bool-cases,
  length-append, subst,
}
use sync_engine.Base.Map
use sync_engine.Base.Map.Laws.{get-set, get-delete}
use sync_engine.Core.Value.{Fields}
use sync_engine.Core.Types.{EntityState, DeltaOperation}
use sync_engine.Core.StateManager.Operations.{Host}
use sync_engine.Core.StateManager.State.{
  StateManager, Snapshot, create, deref, create_entity, new_entity, chosen_id, update_entity,
  delete_entity, create_snapshot, taken, load_snapshot, clear,
}
use sync_engine.Core.StateManager.History.{
  AreRefs, IsChain, IsRecorded, deltas_of, update_entity-IsRecorded,
}

-- The states that calls of a new manager lead to, where each created entity has an identifier that
-- is not in use, and a loaded snapshot is one whose references are good.
pub data Reachable (h : Host) (max_history : ℕ) : StateManager → Type 0 where
  start : Reachable h max_history (create max_history)
  creates :
      {s : StateManager} (type owner : String) (contents : Fields) (id : Option String)
      (fresh : String) (now : ℕ)
      → Reachable h max_history s
      → Map.get s.entities (chosen_id id fresh) ≡ none
      → Reachable h max_history (create_entity s type owner contents id fresh now).0
  updates :
      {s : StateManager} (id : String) (ops : List DeltaOperation) (now : ℕ)
      → Reachable h max_history s
      → Reachable h max_history (update_entity h s id ops now).0
  deletes :
      {s : StateManager} (id : String)
      → Reachable h max_history s
      → Reachable h max_history (delete_entity s id).0
  snapshots :
      {s : StateManager} (now : ℕ) (checksum : String)
      → Reachable h max_history s
      → Reachable h max_history (create_snapshot s now checksum).0
  loads :
      {s : StateManager} (snap : Snapshot)
      → Reachable h max_history s
      → AreRefs s.store snap.entities
      → Reachable h max_history (load_snapshot s snap).0
  clears : {s : StateManager} → Reachable h max_history s → Reachable h max_history (clear s)

no_refs : (store : List EntityState) → AreRefs store []
unfolding Map.get
no_refs store = record { inside = λ id ref p. cc; separate = λ i j ref p q. cc }

create-IsRecorded : (n : ℕ) → IsRecorded (create n)
unfolding create Map.get
create-IsRecorded n = record {
  refs = no_refs [];
  chain = λ id e p. tt;
  bounded = λ id. omega arith;
  absent = λ id p. refl;
}

get_elem?-snoc :
    (xs : List EntityState) (x : EntityState) (i : ℕ)
    → get_elem? (xs ++ x ∷ []) i ≡ (if i == length xs then some x else get_elem? xs i)
get_elem?-snoc [] x zero = refl
get_elem?-snoc [] x (suc i) = ground arith
get_elem?-snoc (y ∷ xs) x zero = ground arith
get_elem?-snoc (y ∷ xs) x (suc i) = ground (arith, get_elem?-snoc xs x i)

create_entity-IsRecorded :
    (s : StateManager) (type owner : String) (contents : Fields) (id : Option String)
    (fresh : String) (now : ℕ)
    → IsRecorded s
    → Map.get s.entities (chosen_id id fresh) ≡ none
    → IsRecorded (create_entity s type owner contents id fresh now).0
unfolding create_entity
create_entity-IsRecorded s type owner contents id fresh now v new =
    let key = chosen_id id fresh in
    let e = new_entity type owner contents key now in
    let n = length s.store in
    let stored = λ (j : String). get-set s.entities key j n in
    record {
      refs = record {
        inside =
            λ j r p. ground (arith, stored j, v.refs.inside j r, length-append s.store (e ∷ []));
        separate = λ i j r p q. ground (
          arith,
          stored i,
          stored j,
          eq_iff key i,
          eq_iff key j,
          v.refs.inside i r,
          v.refs.inside j r,
          v.refs.separate i j r,
        );
      };
      chain = λ j x g. elim (Bool-cases (str_eq key j)) [
        | inl t ↦
            let nothing : deltas_of s j ≡ [] = ground (arith, v.absent key new, eq_iff key j) in
            subst (λ ds. IsChain ds x.version) (sym nothing) tt
        | inr f ↦
            let found : Map.get (Map.set s.entities key n) j ≡ Map.get s.entities j =
              stored j ∙ rw f refl in
            elim (Option-cases (Map.get s.entities j)) [
              | inl a ↦ ground (arith, found)
              | inr (r, a) ↦
                  v.chain j x
                    (ground (arith, found, a, v.refs.inside j r a, get_elem?-snoc s.store e r))
            ]
      ];
      bounded = v.bounded;
      absent = λ j p. ground (arith, stored j, v.absent j);
    }

delete_entity-IsRecorded :
    (s : StateManager) (id : String) → IsRecorded s → IsRecorded (delete_entity s id).0
unfolding delete_entity
delete_entity-IsRecorded s id v = elim (Option-cases (Map.get s.entities id)) [
  | inl p ↦ rw (p, delete_entity) v
  | inr (ref, p) ↦
      rw (p, delete_entity)
        (record {
          refs = record {
            inside = λ j r q. ground (arith, get-delete s.entities id j, v.refs.inside j r);
            separate = λ i j r a b. ground (
              arith,
              get-delete s.entities id i,
              get-delete s.entities id j,
              v.refs.separate i j r,
            );
          };
          chain = λ j x g. elim (Bool-cases (str_eq id j)) [
            | inl t ↦
                let gone : Map.get (Map.delete s.entities id) j ≡ none =
                  get-delete s.entities id j ∙ rw t refl in
                ground (arith, gone)
            | inr f ↦
                let found : Map.get (Map.delete s.entities id) j ≡ Map.get s.entities j =
                  get-delete s.entities id j ∙ rw f refl in
                let past : Map.get (Map.delete s.history id) j ≡ Map.get s.history j =
                  get-delete s.history id j ∙ rw f refl in
                subst (λ ds. IsChain (or_else ds []) x.version) (sym past)
                  (v.chain j x (ap (deref s.store) (sym found) ∙ g))
          ];
          bounded = λ j. ground (arith, get-delete s.history id j, v.bounded j);
          absent = λ j q.
              ground (arith, get-delete s.entities id j, get-delete s.history id j, v.absent j);
        })
]

with_snapshot :
    (s : StateManager) (c : Option Snapshot) → IsRecorded s → IsRecorded (record s { snapshot = c })
with_snapshot s c v = record {
  refs = v.refs;
  chain = v.chain;
  bounded = v.bounded;
  absent = v.absent;
}

create_snapshot-IsRecorded :
    (s : StateManager) (now : ℕ) (checksum : String)
    → IsRecorded s
    → IsRecorded (create_snapshot s now checksum).0
unfolding create_snapshot
create_snapshot-IsRecorded s now checksum v = elim (Option-cases s.snapshot) [
  | inl p ↦ rw (p, create_snapshot) (with_snapshot s (some (taken s now checksum)) v)
  | inr (old, p) ↦ elim (Bool-cases (old.version == s.version)) [
    | inl t ↦ rw (p, create_snapshot, t) v
    | inr f ↦ rw (p, create_snapshot, f) (with_snapshot s (some (taken s now checksum)) v)
  ]
]

-- In every state that calls of a new manager lead to, where each created entity has an identifier
-- not in use and the references of each loaded snapshot lead into the store without sharing: the
-- deltas of an entity lead version by version to its present version, an identifier without an
-- entity has none, and no history is longer than the bound.
pub reachable-IsRecorded :
    (h : Host) (max_history : ℕ) (s : StateManager) → Reachable h max_history s → IsRecorded s
reachable-IsRecorded h n _ start = create-IsRecorded n
reachable-IsRecorded h n _ (creates type owner contents id fresh now r new) =
    create_entity-IsRecorded _ type owner contents id fresh now (reachable-IsRecorded h n _ r) new
reachable-IsRecorded h n _ (updates id ops now r) =
    update_entity-IsRecorded h _ id ops now (reachable-IsRecorded h n _ r)
reachable-IsRecorded h n _ (deletes id r) =
    delete_entity-IsRecorded _ id (reachable-IsRecorded h n _ r)
reachable-IsRecorded h n _ (snapshots now checksum r) =
    create_snapshot-IsRecorded _ now checksum (reachable-IsRecorded h n _ r)
reachable-IsRecorded h n _ (loads snap r refs) =
    unfold load_snapshot Map.get in
    record { refs = refs; chain = λ id e p. tt; bounded = λ id. omega arith; absent = λ id p. refl }
reachable-IsRecorded h n _ (clears r) =
    unfold clear Map.get in
    record {
      refs = no_refs _;
      chain = λ id e p. tt;
      bounded = λ id. omega arith;
      absent = λ id p. refl;
    }
