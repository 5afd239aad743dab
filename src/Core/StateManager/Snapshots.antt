-- ===== src/Core/StateManager/Snapshots.antt =====
-- An update of src/core/state-manager.ts on every branch, and what a snapshot taken before it holds. Values
-- are copied here, as in the whole model: the source stores them by reference.
use sync_engine.Base.{
  ℕ, ◌+◌, ◌≡◌, ◌≢◌, refl, sym, ap, ◌∙◌, ◌⊎◌, inl, inr, String, none, some, List, [], arith,
  get_elem?, eq_iff, Option-cases, Bool-cases, ◌++◌, ◌∷◌, drop, ltb, length, length-append,
  if◌then◌else◌,
}
use sync_engine.Base.Map
use sync_engine.Core.Types.{EntityState, StateDelta, DeltaOperation}
use sync_engine.Core.Value.{Fields}
use sync_engine.Core.StateManager.Operations.{Host, apply_operation, apply_all}
use sync_engine.Core.StateManager.State.{
  StateManager, get_entity, deref, recorded, delta_of, updated, write_entity, update_entity,
  create_snapshot, load_snapshot,
}
use sync_engine.Core.StateManager.History.{
  AreRefs, deltas_of, get-write_entity, deltas-write_entity,
}

-- The data after operations, one after the other.
abbrev pub after_all : Host → Fields → List DeltaOperation → Fields
after_all h fs [] = fs
after_all h fs (op ∷ ops) = after_all h (apply_operation h fs op) ops

apply_all-eq-after_all :
    (h : Host) (fs : Fields) (ops : List DeltaOperation) → apply_all h fs ops ≡ after_all h fs ops
unfolding apply_all
apply_all-eq-after_all h fs [] = refl
apply_all-eq-after_all h fs (op ∷ ops) = apply_all-eq-after_all h (apply_operation h fs op) ops

-- An entity after an update.
abbrev pub next_entity : Host → List DeltaOperation → ℕ → EntityState → EntityState
next_entity h ops now e = record {
  id = e.id;
  type = e.type;
  owner_id = e.owner_id;
  data_ = after_all h e.data_ ops;
  version = e.version + 1;
  last_modified = now;
}

pub updated-eq-next_entity :
    (h : Host) (ops : List DeltaOperation) (now : ℕ) (e : EntityState)
    → updated h ops now e ≡ next_entity h ops now e
updated-eq-next_entity h ops now e =
    ap (λ fs. record (next_entity h ops now e) { data_ = fs })
      (apply_all-eq-after_all h e.data_ ops)

-- The update was made: the entity has the operations applied and the next version, its history has
-- the delta at the end (and has lost its first one if it is too long), and the other entities and
-- their histories are as they were.
abbrev pub IsUpdated :
    Host → StateManager → String → List DeltaOperation → ℕ → EntityState → StateManager → Type 0
IsUpdated h s id ops now e s' =
    (get_entity s' id ≡ some (next_entity h ops now e))
    × (deltas_of s' id
        ≡ drop (if ltb s.max_history (length (deltas_of s id) + 1) then 1 else 0) (
            deltas_of s id
            ++ record {
              entity_id = id;
              from_version = e.version;
              to_version = e.version + 1;
              operations = ops;
              timestamp = now;
            }
              ∷ []))
    × (s'.version ≡ s.version + 1)
    × ((j : String)
        → id ≢ j
        → (get_entity s' j ≡ get_entity s j) × (deltas_of s' j ≡ deltas_of s j))

recorded-eq-drop :
    (max : ℕ) (ds : List StateDelta) (d : StateDelta)
    → recorded max ds d ≡ drop (if ltb max (length ds + 1) then 1 else 0) (ds ++ d ∷ [])
unfolding recorded
recorded-eq-drop max [] d = elim (Bool-cases (ltb max 1)) [
  | inl t ↦ rw (t) refl
  | inr t ↦ rw (t) refl
]
recorded-eq-drop max (c ∷ ds) d =
    let size : length (c ∷ ds ++ d ∷ []) ≡ length (c ∷ ds) + 1 = length-append (c ∷ ds) (d ∷ []) in
    elim (Bool-cases (ltb max (length (c ∷ ds) + 1))) [
      | inl t ↦ rw (size, t) refl
      | inr t ↦ rw (size, t) refl
    ]

write_entity-IsUpdated :
    (h : Host) (s : StateManager) (id : String) (ops : List DeltaOperation) (now ref : ℕ)
    (e : EntityState)
    → AreRefs s.store s.entities
    → Map.get s.entities id ≡ some ref
    → get_elem? s.store ref ≡ some e
    → IsUpdated h s id ops now e (write_entity h s id ops now ref e)
write_entity-IsUpdated h s id ops now ref e v p q =
    let (here, there) = get-write_entity h s id ops now ref e v p q in
    let deltas = deltas-write_entity h s id ops now ref e in
    (
      here ∙ ap some (updated-eq-next_entity h ops now e),
      ground (
        arith,
        deltas id,
        eq_iff id id,
        recorded-eq-drop s.max_history (deltas_of s id) (delta_of e id ops now),
      ),
      unfold write_entity in refl,
      λ j ne. (there j ne, ground (arith, deltas j, eq_iff id j)),
    )

-- Where the references of the entities lead into the store and no two identifiers share one:
-- `updateEntity` of an unknown entity changes and emits nothing and answers null; of a known one
-- it applies the operations one after the other, takes it to its next version at the given time,
-- adds the delta from its old version to the next one to its history, from which the first delta
-- goes if the history is longer than the bound then, and raises the version of the state, touches no other entity or history, and answers with the entity
-- as it is then.
pub update_entity_effects :
    (h : Host) (s : StateManager) (id : String) (ops : List DeltaOperation) (now : ℕ)
    → AreRefs s.store s.entities
    → let done = update_entity h s id ops now in
      ((get_entity s id ≡ none) × (done ≡ (s, none, [])))
      ⊎ ((e : EntityState) × (get_entity s id ≡ some e)
          × (done.1 ≡ some (next_entity h ops now e))
          × IsUpdated h s id ops now e done.0)
unfolding update_entity
update_entity_effects h s id ops now v = elim (Option-cases (Map.get s.entities id)) [
  | inl p ↦ inl (ap (deref s.store) p, rw (p, update_entity) refl)
  | inr (ref, p) ↦ elim (Option-cases (get_elem? s.store ref)) [
    | inl q ↦ inl (ap (deref s.store) p ∙ q, rw (p, update_entity, q) refl)
    | inr (e, q) ↦ inr (
      e,
      ap (deref s.store) p ∙ q,
      rw (p, update_entity, q) (ap some (updated-eq-next_entity h ops now e)),
      rw (p, update_entity, q) (write_entity-IsUpdated h s id ops now ref e v p q),
    )
  ]
]

entities-update_entity :
    (h : Host) (s : StateManager) (id : String) (ops : List DeltaOperation) (now : ℕ)
    → (update_entity h s id ops now).0.entities ≡ s.entities
unfolding update_entity write_entity
entities-update_entity h s id ops now = elim (Option-cases (Map.get s.entities id)) [
  | inl p ↦ rw (p, update_entity) refl
  | inr (ref, p) ↦ elim (Option-cases (get_elem? s.store ref)) [
    | inl q ↦ rw (p, update_entity, q) refl
    | inr (e, q) ↦ rw (p, update_entity, q) refl
  ]
]

-- Loading a snapshot does not undo an update made since it was taken (with none cached then): each
-- entity is the updated one, since the snapshot holds the very objects that the update mutates.
pub load_snapshot-update_entity :
    (h : Host) (s : StateManager) (id : String) (ops : List DeltaOperation) (now later : ℕ)
    (checksum : String)
    → s.snapshot ≡ none
    → let (s1, snap) = create_snapshot s now checksum in
      let s2 = (update_entity h s1 id ops later).0 in
      (j : String) → get_entity (load_snapshot s2 snap).0 j ≡ get_entity s2 j
unfolding create_snapshot load_snapshot
load_snapshot-update_entity h s id ops now later checksum p j =
    let (s1, snap) = create_snapshot s now checksum in
    let s2 = (update_entity h s1 id ops later).0 in
    let held : snap.entities ≡ s1.entities = rw (p, create_snapshot) refl in
    ap (λ (m : Map.Map ℕ). deref s2.store (Map.get m j))
      (held ∙ sym (entities-update_entity h s1 id ops later))
