-- ===== src/Sync/StateSynchronizer/Replicas.antt =====
-- What src/sync/state-synchronizer.ts makes of the deltas that another node sends.
use sync_engine.Base.{
  ℕ, ◌+◌, ◌≤◌, ◌≡◌, refl, sym, ap, subst, ◌∙◌, inl, inr, String, none, some, List, [], get_elem?,
  ◌∷◌, ◌++◌, arith, le→leb, Option-cases, All, Bool, true, false,
}
use sync_engine.Core.Value.{Value, object, array}
use sync_engine.Base.Map
use sync_engine.Core.Types.{EntityState, StateDelta, DeltaOperation}
use sync_engine.Core.StateManager.Operations.{Host, apply_all}
use sync_engine.Core.StateManager.State.{
  StateManager, get_entity, update_entity, deref, updated, delta_of,
}
use sync_engine.Core.StateManager.History.{
  AreRefs, IsRecorded, update_entity-IsRecorded, get-write_entity,
}
use sync_engine.Sync.StateSynchronizer.{
  StateSynchronizer, Language, listen, update, handle_delta, handle_deltas, handle_remote_delta,
}

-- Operations of one call of `updateEntity` and its time.
abbrev pub Update : Type 0
Update = List DeltaOperation × ℕ

-- A value that is no object and no array, so that what stores it shares nothing with what holds it.
abbrev pub is_plain : Value → Bool
is_plain (object _) = false
is_plain (array _) = false
is_plain _ = true

abbrev pub HasPlain : DeltaOperation → Type 0
HasPlain op = is_plain op.value ≡ true

-- The calls in their order, and the deltas that their events carry.
unfoldable pub updates : Host → StateManager → String → List Update → StateManager × List StateDelta
unfolding update_entity
updates h m id [] = (m, [])
updates h m id ((ops, now) ∷ us) =
    let (m', _, events) = update_entity h m id ops now in
    let later : StateManager × List StateDelta = updates h m' id us in
    (later.0, listen events ++ later.1)

-- Both managers hold the entity, with the same data and version.
abbrev pub AreTwins : StateManager → StateManager → String → Type 0
AreTwins m n id =
    (e : EntityState) × (r : EntityState) × (get_entity m id ≡ some e)
    × (get_entity n id ≡ some r)
    × (r.data_ ≡ e.data_)
    × (r.version ≡ e.version)

-- An update of an entity that is there.
pub update_entity-held :
    (h : Host) (m : StateManager) (id : String) (ops : List DeltaOperation) (now : ℕ)
    (e : EntityState)
    → AreRefs m.store m.entities
    → get_entity m id ≡ some e
    → let done = update_entity h m id ops now in
      (get_entity done.0 id ≡ some (updated h ops now e))
      × (listen done.2 ≡ delta_of e id ops now ∷ [])
unfolding update_entity
update_entity-held h m id ops now e v held = elim (Option-cases (Map.get m.entities id)) [
  | inl p ↦
      let no_entity : none ≡ some e = sym (ap (deref m.store) p) ∙ held in absurd (cc no_entity)
  | inr (ref, p) ↦
      let there : get_elem? m.store ref ≡ some e = sym (ap (deref m.store) p) ∙ held in
      rw (p, update_entity, there) ((get-write_entity h m id ops now ref e v p there).0, refl)
]

handle_delta-newer :
    (l : Language) (s : StateSynchronizer) (d : StateDelta) (later : ℕ) (r : EntityState)
    → get_entity s.manager d.entity_id ≡ some r
    → r.version ≤ d.from_version
    → handle_delta l s d later ≡ update l s d.entity_id d.operations later
unfolding handle_delta
handle_delta-newer l s d later r held le =
    rw (held, handle_delta, le→leb r.version d.from_version le) refl

handle_deltas-updates :
    (l : Language) (m : StateManager) (s : StateSynchronizer) (id : String) (us : List Update)
    (later : ℕ)
    → IsRecorded m
    → IsRecorded s.manager
    → AreTwins m s.manager id
    → let (m', ds) = updates l.host m id us in AreTwins m' (handle_deltas l s ds later).manager id
unfolding updates handle_deltas update
handle_deltas-updates l m s id [] later v w twins = twins
handle_deltas-updates l m s id ((ops, now) ∷ us) later v w (e, r, held, held', same, equal) =
    let (here, emitted) = update_entity-held l.host m id ops now e v.refs held in
    let (there, _) = update_entity-held l.host s.manager id ops later r w.refs held' in
    let d = delta_of e id ops now in
    let taken : handle_delta l s d later ≡ update l s id ops later =
      handle_delta-newer l s d later r held' (omega (arith, equal)) in
    let m' = (update_entity l.host m id ops now).0 in
    let s' = update l s id ops later in
    let twins : AreTwins m' s'.manager id = (
      updated l.host ops now e,
      updated l.host ops later r,
      here,
      there,
      ap (λ fs. apply_all l.host fs ops) same,
      ap (λ n. n + 1) equal,
    ) in
    let rest =
      handle_deltas-updates l m' s' id us later (update_entity-IsRecorded l.host m id ops now v)
        (update_entity-IsRecorded l.host s.manager id ops later w) twins in
    rw (emitted, updates, handle_deltas, taken) rest

manager-handle_remote_delta :
    (l : Language) (s : StateSynchronizer) (source : String) (ds : List StateDelta) (later : ℕ)
    → (handle_remote_delta l s source ds later).manager ≡ (handle_deltas l s ds later).manager
unfolding handle_remote_delta
manager-handle_remote_delta l s source ds later =
    elim (Option-cases (Map.get (handle_deltas l s ds later).peers source)) [
      | inl e ↦ rw (e, handle_remote_delta) refl
      | inr (p, e) ↦ rw (e, handle_remote_delta) refl
    ]

-- A node whose manager holds an entity with the same data and version as the manager of another node,
-- both in a state that their operations lead to, follows any updates that the other one makes of the
-- entity by operations whose values are neither objects nor arrays: given the deltas of those updates in their order, in one message at any time, it has the
-- same data and version as the other one again.
pub handle_remote_delta-updates :
    (l : Language) (m : StateManager) (s : StateSynchronizer) (source id : String)
    (us : List Update) (later : ℕ)
    → All (λ (u : Update). All HasPlain u.0) us
    → IsRecorded m
    → IsRecorded s.manager
    → AreTwins m s.manager id
    → let (m', ds) = updates l.host m id us in
      AreTwins m' (handle_remote_delta l s source ds later).manager id
handle_remote_delta-updates l m s source id us later plain v w twins =
    let ds = (updates l.host m id us).1 in
    subst (λ n. AreTwins (updates l.host m id us).0 n id)
      (sym (manager-handle_remote_delta l s source ds later))
      (handle_deltas-updates l m s id us later v w twins)
