-- ===== src/Core/StateManager/Tests.antt =====
-- Runs of `StateManager` of src/core/state-manager.ts.
use sync_engine.Base.{◌≡◌, ◌≢◌, ◌⊎◌, refl, String, none, some, [], ◌∷◌}
use sync_engine.Base.Map
use sync_engine.Base.Int.{pos, ◌+ℤ◌}
use sync_engine.Core.Value.{number, object, Fields, end, field}
use sync_engine.Core.Types.{EntityState, DeltaOperation, increment}
use sync_engine.Core.StateManager.Split.{split}
use sync_engine.Core.StateManager.Operations
use sync_engine.Core.StateManager.Operations.{Host, property, apply_operation, apply_all}
use sync_engine.Core.StateManager.State.{
  StateManager, create, create_entity, update_entity, get_entity, create_snapshot, load_snapshot,
}
use sync_engine.Core.StateManager.Paths.{read_at, changed, value_at, apply_operation_effects}
use sync_engine.Core.StateManager.History.{AreRefs, IsRecorded}
use sync_engine.Core.StateManager.Reachable.{
  Reachable, start, creates, updates, reachable-IsRecorded,
}
use sync_engine.Core.StateManager.Snapshots.{
  IsUpdated, next_entity, update_entity_effects, load_snapshot-update_entity,
}

-- Paths into arrays change nothing, and texts and arrays are no numbers.
abbrev host : Host
host = record {
  into_array = λ op keys v xs. xs;
  number_of_text = λ s. none;
  number_of_array = λ xs. none;
}

abbrev damage : DeltaOperation
damage = record { op = increment; path = "stats.hp"; value = number (pos 5) }

abbrev stats : Fields
stats = field "stats" (object (field "hp" (number (pos 80)) end)) end

two_parts : split "stats.hp" ≡ "stats" ∷ "hp" ∷ []
unfolding split
two_parts = refl

raised :
    apply_operation host stats damage
    ≡ field "stats" (object (field "hp" (number (pos 85)) end)) end
unfolding apply_operation Operations.apply_at Operations.change Operations.enter property
    Operations.put Operations.as_number split ◌+ℤ◌
raised = refl

apply_operation_effects_example :
    let fs' = apply_operation host stats damage in
    (read_at ("stats" ∷ "hp" ∷ []) fs'
      ≡ some (changed host increment (number (pos 5)) (value_at ("stats" ∷ "hp" ∷ []) stats)))
    × ((j : String) → "stats" ≢ j → property fs' j ≡ property stats j)
unfolding property
apply_operation_effects_example =
    apply_operation_effects host stats damage "stats" ("hp" ∷ []) two_parts tt

-- A manager with one player, who has been hit once.
abbrev one_player : StateManager
one_player = (create_entity (create 100) "player" "o" stats (some "p1") "f" 5).0

abbrev hit : StateManager
hit = (update_entity host one_player "p1" (damage ∷ []) 6).0

unused : Map.get (create 100).entities "p1" ≡ none
unfolding create Map.get
unused = refl

one_player-Reachable : Reachable host 100 one_player
one_player-Reachable = creates "player" "o" stats (some "p1") "f" 5 start unused

reachable-IsRecorded_example : IsRecorded hit
reachable-IsRecorded_example =
    reachable-IsRecorded host 100 hit (updates "p1" (damage ∷ []) 6 one_player-Reachable)

one_player-refs : AreRefs one_player.store one_player.entities
one_player-refs = (reachable-IsRecorded host 100 one_player one_player-Reachable).refs

update_entity_effects_example :
    let done = update_entity host one_player "p1" (damage ∷ []) 6 in
    ((get_entity one_player "p1" ≡ none) × (done ≡ (one_player, none, [])))
    ⊎ ((e : EntityState) × (get_entity one_player "p1" ≡ some e)
        × (done.1 ≡ some (next_entity host (damage ∷ []) 6 e))
        × IsUpdated host one_player "p1" (damage ∷ []) 6 e done.0)
update_entity_effects_example =
    update_entity_effects host one_player "p1" (damage ∷ []) 6 one_player-refs

no_cache : one_player.snapshot ≡ none
unfolding create_entity
no_cache = refl

load_snapshot-update_entity_example :
    let (s1, snap) = create_snapshot one_player 7 "c" in
    let s2 = (update_entity host s1 "p1" (damage ∷ []) 8).0 in
    get_entity (load_snapshot s2 snap).0 "p1" ≡ get_entity s2 "p1"
load_snapshot-update_entity_example =
    load_snapshot-update_entity host one_player "p1" (damage ∷ []) 7 8 "c" no_cache "p1"
