-- ===== src/Sync/StateSynchronizer/Conflict.antt =====
-- What src/sync/state-synchronizer.ts does with a delta that conflicts with the local entity.
use sync_engine.Base.{
  ℕ, ◌≤◌, ◌<◌, ◌≡◌, ◌≢◌, refl, sym, ap, ◌∙◌, inl, inr, String, true, false, none, some, List, [],
  ◌∷◌, ◌++◌, arith, ltb, leb, length, length-set_elem, get_elem?-set_elem_self, get_elem?, or_else,
  eq_iff, Option-cases, Bool-cases, ◌+◌, All,
}
use sync_engine.Base.Map
use sync_engine.Core.Types.{EntityState, StateDelta, DeltaOperation}
use sync_engine.Core.StateManager.Snapshots.{after_all, next_entity, updated-eq-next_entity}
use sync_engine.Core.StateManager.State.{
  StateManager, deref, get_entity, get_entity_history, update_entity, updated, delta_of,
  write_entity, recorded,
}
use sync_engine.Core.StateManager.History.{
  AreRefs, deltas_of, get-write_entity, deltas-write_entity, write_entity-AreRefs,
}
use sync_engine.Sync.ConflictResolver.{
  ConflictResolver, resolve, resolve_by, resolve_with_custom, resolve_last_write_wins,
  resolve_first_write_wins, resolve_merge, last_write_wins, first_write_wins, merge, custom,
  ConflictStrategy,
}
use sync_engine.Sync.StateSynchronizer.{
  StateSynchronizer, Language, update, handle_delta, resolve_delta, touch, with_data, apply_to_data,
  last_delta,
}
use sync_engine.Sync.StateSynchronizer.Replicas.{update_entity-held}
use sync_engine.Sync.StateSynchronizer.Writes.{
  writes, IsDirect, AgreeInArrays, apply_to_data-eq-after_all, after_all-append,
}

resolve_by-resolved :
    (st : ConflictStrategy) (c : ConflictResolver) (local remote : EntityState)
    (local_delta remote_delta : StateDelta) (now : ℕ)
    → (resolve_by st c local remote local_delta remote_delta now).1.resolved ≡ true
unfolding resolve_by resolve_last_write_wins resolve_first_write_wins resolve_merge
resolve_by-resolved last_write_wins c local remote local_delta remote_delta now = refl
resolve_by-resolved first_write_wins c local remote local_delta remote_delta now = refl
resolve_by-resolved merge c local remote local_delta remote_delta now = refl
resolve_by-resolved custom c local remote local_delta remote_delta now = refl

-- Every conflict is resolved.
resolve-resolved :
    (c : ConflictResolver) (local remote : EntityState) (local_delta remote_delta : StateDelta)
    (now : ℕ)
    → (resolve c local remote local_delta remote_delta now).1.resolved ≡ true
unfolding resolve resolve_with_custom resolve_last_write_wins
resolve-resolved c local remote local_delta remote_delta now =
    elim (Option-cases (Map.get c.custom_resolvers local.type)) [
      | inl e ↦
          rw (e, resolve)
            (resolve_by-resolved c.default_strategy c local remote local_delta remote_delta now)
      | inr (f, e) ↦ elim (Option-cases (f local remote local_delta remote_delta)) [
        | inl t ↦ rw (e, resolve, resolve_with_custom, t) refl
        | inr (x, t) ↦ rw (e, resolve, resolve_with_custom, t) refl
      ]
    ]

-- An entity whose history is not empty, which the last delta ends.
pub record IsHeld (m : StateManager) (id : String) (e : EntityState) : Type 0 where
  pub refs : AreRefs m.store m.entities
  pub held : get_entity m id ≡ some e
  pub past : (d : StateDelta) × (last_delta (deltas_of m id) ≡ some d)
  pub room : 1 ≤ m.max_history

last_delta-snoc : (ds : List StateDelta) (d : StateDelta) → last_delta (ds ++ d ∷ []) ≡ some d
last_delta-snoc [] d = refl
last_delta-snoc (c ∷ []) d = refl
last_delta-snoc (c ∷ e ∷ ds) d = last_delta-snoc (e ∷ ds) d

last_delta-recorded :
    (n : ℕ) (ds : List StateDelta) (d : StateDelta) → 1 ≤ n → last_delta (recorded n ds d) ≡ some d
unfolding recorded
last_delta-recorded n [] d le = let short : ltb n 1 ≡ false = ground (arith, le) in rw short refl
last_delta-recorded n (c ∷ ds) d le = elim (Bool-cases (ltb n (length (c ∷ ds ++ d ∷ [])))) [
  | inl t ↦ rw (t) (last_delta-snoc ds d)
  | inr t ↦ rw (t) (last_delta-snoc (c ∷ ds) d)
]

touch-IsHeld :
    (m : StateManager) (id : String) (e e' : EntityState)
    → IsHeld m id e
    → IsHeld (touch m id e') id e'
touch-IsHeld m id e e' v = elim (Option-cases (Map.get m.entities id)) [
  | inl p ↦
      let no_entity : none ≡ some e = sym (ap (deref m.store) p) ∙ v.held in absurd (cc no_entity)
  | inr (ref, p) ↦
      rw (p, touch)
        (record {
          refs = record {
            inside = λ j r q.
                let lt = v.refs.inside j r q in
                let size = length-set_elem m.store ref e' in omega (arith, lt, size);
            separate = v.refs.separate;
          };
          held = rw p (get_elem?-set_elem_self m.store ref e' (v.refs.inside id ref p));
          past = v.past;
          room = v.room;
        })
]

pub update_entity-IsHeld :
    (l : Language) (m : StateManager) (id : String) (ops : List DeltaOperation) (now : ℕ)
    (e : EntityState)
    → IsHeld m id e
    → IsHeld (update_entity l.host m id ops now).0 id (updated l.host ops now e)
unfolding update_entity
update_entity-IsHeld l m id ops now e v = elim (Option-cases (Map.get m.entities id)) [
  | inl p ↦
      let no_entity : none ≡ some e = sym (ap (deref m.store) p) ∙ v.held in absurd (cc no_entity)
  | inr (ref, p) ↦
      let there : get_elem? m.store ref ≡ some e = sym (ap (deref m.store) p) ∙ v.held in
      let d = delta_of e id ops now in
      let history = deltas-write_entity l.host m id ops now ref e id in
      let newest : deltas_of (write_entity l.host m id ops now ref e) id
          ≡ recorded m.max_history (deltas_of m id) d =
        ground (arith, history, eq_iff id id) in
      rw (p, update_entity, there)
        (record {
          refs = write_entity-AreRefs l.host m id ops now ref e v.refs;
          held = (get-write_entity l.host m id ops now ref e v.refs p there).0;
          past = (
            d,
            ap last_delta newest ∙ last_delta-recorded m.max_history (deltas_of m id) d v.room,
          );
          room = unfold write_entity in v.room;
        })
]

-- What stands in an entity before the update that a conflict ends with.
abbrev pub mixed : Language → EntityState → StateDelta → EntityState
mixed l e d = with_data e (apply_to_data l e.data_ d.operations)

-- The remote entity of a conflict, and the operations that it ends with.
abbrev remote_of : Language → EntityState → StateDelta → EntityState
remote_of l e d = record (mixed l e d) { version = d.to_version; last_modified = d.timestamp }

abbrev pub chosen :
    Language → StateSynchronizer → EntityState → StateDelta → StateDelta → ℕ → List DeltaOperation
chosen l s e past d now =
    or_else (resolve s.resolver (mixed l e d) (remote_of l e d) past d now).1.merged_operations
      d.operations

-- The entity has been updated, and its new delta waits to be sent.
abbrev pub IsRenewed :
    Language
    → StateSynchronizer
    → StateSynchronizer
    → StateDelta
    → List DeltaOperation
    → ℕ
    → EntityState
    → Type 0
IsRenewed l s s' d ops now e =
    IsHeld s'.manager d.entity_id (updated l.host ops now (mixed l e d))
    × (s'.pending_deltas ≡ s.pending_deltas ++ delta_of (mixed l e d) d.entity_id ops now ∷ [])
    × (s'.batch_size ≡ s.batch_size)

resolve_delta-IsRenewed :
    (l : Language) (s : StateSynchronizer) (d past : StateDelta) (now : ℕ) (e : EntityState)
    → IsHeld s.manager d.entity_id e
    → IsRenewed l s (resolve_delta l s e past d now) d (chosen l s e past d now) now e
unfolding resolve_delta update
resolve_delta-IsRenewed l s d past now e v =
    let local' = mixed l e d in
    let ops = chosen l s e past d now in
    let t = touch-IsHeld s.manager d.entity_id e local' v in
    let m = touch s.manager d.entity_id local' in
    let (_, emitted) = update_entity-held l.host m d.entity_id ops now local' t.refs t.held in
    rw (resolve-resolved s.resolver local' (remote_of l e d) past d now) (
      update_entity-IsHeld l m d.entity_id ops now local' t,
      ap (λ ds. s.pending_deltas ++ ds) emitted,
      refl,
    )

pub handle_delta-IsRenewed :
    (l : Language) (s : StateSynchronizer) (d past : StateDelta) (now : ℕ) (e : EntityState)
    → IsHeld s.manager d.entity_id e
    → d.from_version < e.version
    → last_delta (deltas_of s.manager d.entity_id) ≡ some past
    → IsRenewed l s (handle_delta l s d now) d (chosen l s e past d now) now e
unfolding handle_delta get_entity_history
handle_delta-IsRenewed l s d past now e v lt p =
    let older : leb e.version d.from_version ≡ false = ground (arith, lt) in
    rw (v.held, handle_delta, older, p) (resolve_delta-IsRenewed l s d past now e v)

no_merged :
    (st : ConflictStrategy) (c : ConflictResolver) (local remote : EntityState)
    (local_delta remote_delta : StateDelta) (now : ℕ)
    → st ≢ merge
    → (resolve_by st c local remote local_delta remote_delta now).1.merged_operations ≡ none
unfolding resolve_by resolve_last_write_wins resolve_first_write_wins resolve_merge
no_merged last_write_wins c local remote local_delta remote_delta now ne = refl
no_merged first_write_wins c local remote local_delta remote_delta now ne = refl
no_merged merge c local remote local_delta remote_delta now ne = absurd (ne refl)
no_merged custom c local remote local_delta remote_delta now ne = refl

-- Where the references of the entities lead into the store and a history has room for one delta: a
-- delta that starts before the version of the local entity, whose history is not empty, for an
-- entity whose type has no custom resolver, under a strategy other than merging; its operations
-- have values that are neither objects nor arrays, and those that neither write nor delete are on
-- properties of the entity itself; and writes and deletions inside arrays do the same in both
-- classes. Whichever side the resolver takes for the winner, the entity gets the writes and
-- deletions of the delta, then all its operations, so that the writes and deletions are made
-- twice, with the next local version; and a new delta with the operations, from the local version
-- to the next one, waits to be sent.
pub handle_delta-conflict :
    (l : Language) (s : StateSynchronizer) (d : StateDelta) (now : ℕ) (e : EntityState)
    → AgreeInArrays l
    → All IsDirect d.operations
    → IsHeld s.manager d.entity_id e
    → d.from_version < e.version
    → Map.get s.resolver.custom_resolvers e.type ≡ none
    → s.resolver.default_strategy ≢ merge
    → let s' = handle_delta l s d now in
      (get_entity s'.manager d.entity_id
        ≡ some (record {
          id = e.id;
          type = e.type;
          owner_id = e.owner_id;
          data_ = after_all l.host e.data_ (writes d.operations ++ d.operations);
          version = e.version + 1;
          last_modified = now;
        }))
      × (s'.pending_deltas
          ≡ s.pending_deltas
            ++ record {
              entity_id = d.entity_id;
              from_version = e.version;
              to_version = e.version + 1;
              operations = d.operations;
              timestamp = now;
            }
              ∷ [])
unfolding resolve
handle_delta-conflict l s d now e agree direct v lt plain ne =
    let (past, p) = v.past in
    let after = handle_delta-IsRenewed l s d past now e v lt p in
    let unmerged : (resolve s.resolver (mixed l e d) (remote_of l e d) past d
          now).1.merged_operations
        ≡ none =
      rw (plain, resolve)
        (no_merged s.resolver.default_strategy s.resolver (mixed l e d) (remote_of l e d) past d now
          ne) in
    let same : chosen l s e past d now ≡ d.operations =
      ap (λ ops. or_else ops d.operations) unmerged in
    let twice : after_all l.host (apply_to_data l e.data_ d.operations) d.operations
        ≡ after_all l.host e.data_ (writes d.operations ++ d.operations) =
      ap (λ fs. after_all l.host fs d.operations)
        (apply_to_data-eq-after_all l e.data_ d.operations agree direct)
      ∙ sym (after_all-append l.host e.data_ (writes d.operations) d.operations) in
    (
      after.0.held
          ∙ ap (λ ops. some (updated l.host ops now (mixed l e d))) same
          ∙ ap some (updated-eq-next_entity l.host d.operations now (mixed l e d))
          ∙ ap (λ fs. some (record (next_entity l.host [] now e) { data_ = fs })) twice,
      after.1
          ∙ ap (λ ops. s.pending_deltas ++ delta_of (mixed l e d) d.entity_id ops now ∷ []) same,
    )
