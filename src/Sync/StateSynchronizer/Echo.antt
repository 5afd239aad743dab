-- ===== src/Sync/StateSynchronizer/Echo.antt =====
-- What src/sync/state-synchronizer.ts does with the deltas that it has published itself.
use sync_engine.Base.{
  ℕ, zero, suc, ◌+◌, ◌≤◌, ◌<◌, ◌≡◌, refl, sym, ap, subst, ◌∙◌, inl, inr, String, none, List, [],
  ◌∷◌, ◌++◌, arith, length, take, drop, Option-cases,
}
use sync_engine.Base.Map
use sync_engine.Core.Types.{EntityState, StateDelta, DeltaOperation}
use sync_engine.Core.StateManager.State.{update_entity, updated, delta_of}
use sync_engine.Sync.DeltaCompressor.{compress}
use sync_engine.Sync.StateSynchronizer.{
  StateSynchronizer, Language, listen, update, handle_delta, handle_deltas, handle_remote_delta,
  flush_deltas, state_delta, published,
}
use sync_engine.Sync.StateSynchronizer.Replicas.{update_entity-held}
use sync_engine.Sync.StateSynchronizer.Conflict.{
  IsHeld, mixed, chosen, update_entity-IsHeld, handle_delta-IsRenewed,
}

-- The entity is at the version, and one delta waits that starts before it.
pub record IsEchoing (s : StateSynchronizer) (id : String) (version : ℕ) : Type 0 where
  pub entity : EntityState
  pub held : IsHeld s.manager id entity
  pub at_version : entity.version ≡ version
  pub waits :
      (d : StateDelta) × (s.pending_deltas ≡ d ∷ [])
      × (d.entity_id ≡ id)
      × (d.from_version < version)
  pub room : 1 ≤ s.batch_size

unfoldable pub flushes : Language → StateSynchronizer → List ℕ → StateSynchronizer
unfolding flush_deltas
flushes l s [] = s
flushes l s (now ∷ times) = flushes l (flush_deltas l s now).0 times

handle_one :
    (l : Language) (s : StateSynchronizer) (source : String) (d : StateDelta) (now : ℕ)
    → let s' = handle_remote_delta l s source (d ∷ []) now in
      (s'.manager ≡ (handle_delta l s d now).manager)
      × (s'.pending_deltas ≡ (handle_delta l s d now).pending_deltas)
      × (s'.batch_size ≡ (handle_delta l s d now).batch_size)
unfolding handle_remote_delta handle_deltas
handle_one l s source d now = elim (Option-cases (Map.get (handle_delta l s d now).peers source)) [
  | inl e ↦ rw (e, handle_remote_delta, handle_deltas) (refl, refl, refl)
  | inr (p, e) ↦ rw (e, handle_remote_delta, handle_deltas) (refl, refl, refl)
]

take_one : (n : ℕ) (d : StateDelta) → 1 ≤ n → take n (d ∷ []) ≡ d ∷ []
take_one zero d le = absurd (omega (arith, le))
take_one (suc zero) d le = refl
take_one (suc (suc n)) d le = refl

drop_one : (n : ℕ) (d : StateDelta) → 1 ≤ n → drop n (d ∷ []) ≡ []
drop_one zero d le = absurd (omega (arith, le))
drop_one (suc zero) d le = refl
drop_one (suc (suc n)) d le = refl

abbrev emptied : StateSynchronizer → StateSynchronizer
emptied s = record s { pending_deltas = [] }

-- A flush of a single delta hands it to the synchronizer itself.
flush_one :
    (l : Language) (s : StateSynchronizer) (d : StateDelta) (now : ℕ)
    → s.pending_deltas ≡ d ∷ []
    → 1 ≤ s.batch_size
    → let s' = handle_remote_delta l (emptied s) s.node_id (d ∷ []) now in
      flush_deltas l s now ≡ (
        record s' { syncs_performed = s'.syncs_performed + 1 },
        published (state_delta (d ∷ [])) none ∷ [],
      )
unfolding flush_deltas compress
flush_one l s d now waiting le =
    rw (waiting, flush_deltas, take_one s.batch_size d le, drop_one s.batch_size d le) refl

delta-IsEchoing :
    (l : Language) (s : StateSynchronizer) (d : StateDelta) (now n : ℕ) (e : EntityState)
    → IsHeld s.manager d.entity_id e
    → e.version ≡ n
    → d.from_version < n
    → 1 ≤ s.batch_size
    → let s' = handle_remote_delta l (emptied s) s.node_id (d ∷ []) now in
      IsEchoing (record s' { syncs_performed = s'.syncs_performed + 1 }) d.entity_id (n + 1)
delta-IsEchoing l s d now n e v at lt le =
    let (past, p) = v.past in
    let (held, waits, room) =
      handle_delta-IsRenewed l (emptied s) d past now e v (omega (arith, at, lt)) p in
    let ops = chosen l (emptied s) e past d now in
    let (same, still, size) = handle_one l (emptied s) s.node_id d now in
    record {
      entity = updated l.host ops now (mixed l e d);
      held =
          subst (λ m. IsHeld m d.entity_id (updated l.host ops now (mixed l e d))) (sym same) held;
      at_version = omega (arith, at);
      waits = (delta_of (mixed l e d) d.entity_id ops now, still ∙ waits, refl, omega (arith, at));
      room = omega (arith, le, size, room);
    }

flush_deltas-IsEchoing :
    (l : Language) (s : StateSynchronizer) (id : String) (n now : ℕ)
    → IsEchoing s id n
    → IsEchoing (flush_deltas l s now).0 id (n + 1)
flush_deltas-IsEchoing l s id n now v =
    let (d, waiting, same, lt) = v.waits in
    let held = subst (λ j. IsHeld s.manager j v.entity) (sym same) v.held in
    let s' = handle_remote_delta l (emptied s) s.node_id (d ∷ []) now in
    let done : StateSynchronizer = record s' { syncs_performed = s'.syncs_performed + 1 } in
    rw (flush_one l s d now waiting v.room) (
      subst (λ j. IsEchoing done j (n + 1)) same
        (delta-IsEchoing l s d now n v.entity held v.at_version lt v.room))

flushes-IsEchoing :
    (l : Language) (s : StateSynchronizer) (id : String) (n : ℕ) (times : List ℕ)
    → IsEchoing s id n
    → IsEchoing (flushes l s times) id (n + length times)
unfolding flushes
flushes-IsEchoing l s id n [] v = subst (IsEchoing s id) (omega arith) v
flushes-IsEchoing l s id n (now ∷ times) v =
    subst (IsEchoing (flushes l s (now ∷ times)) id) (omega arith) (
      flushes-IsEchoing l (flush_deltas l s now).0 id (n + 1) times
        (flush_deltas-IsEchoing l s id n now v))

-- One local update of an entity whose history is not empty, by a synchronizer without pending deltas and
-- with room for one in a batch and in a history, is never done with: after any number of flushes, with
-- no other call, one delta still waits to be sent, and the version of the entity has gone up by the
-- update and by each flush.
pub update_echoes :
    (l : Language) (s : StateSynchronizer) (id : String) (ops : List DeltaOperation) (now : ℕ)
    (e : EntityState) (times : List ℕ)
    → IsHeld s.manager id e
    → s.pending_deltas ≡ []
    → 1 ≤ s.batch_size
    → IsEchoing (flushes l (update l s id ops now) times) id (e.version + 1 + length times)
unfolding update
update_echoes l s id ops now e times v none_waits le =
    let (_, emitted) = update_entity-held l.host s.manager id ops now e v.refs v.held in
    flushes-IsEchoing l (update l s id ops now) id (e.version + 1) times (record {
      entity = updated l.host ops now e;
      held = update_entity-IsHeld l s.manager id ops now e v;
      at_version = refl;
      waits = (
        delta_of e id ops now,
        ap (λ ds. ds ++ listen (update_entity l.host s.manager id ops now).2) none_waits ∙ emitted,
        refl,
        omega arith,
      );
      room = le;
    })
