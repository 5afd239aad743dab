-- ===== src/Sync/StateSynchronizer/Tests.antt =====
-- Runs of src/sync/state-synchronizer.ts.
use sync_engine.Base.{◌+◌, ◌≡◌, refl, none, some, List, [], ◌∷◌, ◌++◌, arith, All, inl, inr}
use sync_engine.Base.Int.{pos}
use sync_engine.Base.Map
use sync_engine.Core.Value.{number, Fields, end, field}
use sync_engine.Core.Types.{EntityState, StateDelta, DeltaOperation, increment, set}
use sync_engine.Core.StateManager.State
use sync_engine.Core.StateManager.State.{
  StateManager, create_entity, update_entity, updated, get_entity, delta_of, new_entity,
}
use sync_engine.Core.StateManager.History.{IsRecorded}
use sync_engine.Core.StateManager.Snapshots.{after_all}
use sync_engine.Core.StateManager.Split.{split}
use sync_engine.Core.StateManager.Reachable.{Reachable, start, creates, reachable-IsRecorded}
use sync_engine.Sync.ConflictResolver
use sync_engine.Sync.ConflictResolver.{merge}
use sync_engine.Sync.StateSynchronizer
use sync_engine.Sync.StateSynchronizer.{
  StateSynchronizer, Language, update, handle_delta, handle_remote_delta,
}
use sync_engine.Sync.StateSynchronizer.Conflict.{IsHeld, handle_delta-conflict}
use sync_engine.Sync.StateSynchronizer.Writes.{writes, IsDirect}
use sync_engine.Sync.StateSynchronizer.Echo.{IsEchoing, flushes, update_echoes}
use sync_engine.Sync.StateSynchronizer.Replicas.{
  Update, HasPlain, updates, AreTwins, update_entity-held, handle_remote_delta-updates,
}

abbrev language : Language
language = record {
  host = record {
    into_array = λ op keys v xs. xs;
    number_of_text = λ s. none;
    number_of_array = λ xs. none;
  };
  into_array = λ op keys v xs. xs;
  text = λ op. "key";
}

abbrev damage : List DeltaOperation
damage = record { op = increment; path = "hp"; value = number (pos 5) } ∷ []

abbrev stats : Fields
stats = field "hp" (number (pos 80)) end

abbrev one_player : StateManager
one_player = (create_entity (State.create 100) "player" "o" stats (some "p1") "f" 5).0

abbrev player : EntityState
player = new_entity "player" "o" stats "p1" 5

unused : Map.get (State.create 100).entities "p1" ≡ none
unfolding State.create Map.get
unused = refl

one_player-Reachable : Reachable language.host 100 one_player
one_player-Reachable = creates "player" "o" stats (some "p1") "f" 5 start unused

one_player-IsRecorded : IsRecorded one_player
one_player-IsRecorded = reachable-IsRecorded language.host 100 one_player one_player-Reachable

there : get_entity one_player "p1" ≡ some player
unfolding create_entity State.create Map.get Map.set
there = refl

abbrev node : StateSynchronizer
node = StateSynchronizer.create "n1" one_player ConflictResolver.create 10

node_manager : node.manager ≡ one_player
unfolding StateSynchronizer.create
node_manager = refl

abbrev two_hits : List Update
two_hits = (damage, 6) ∷ (damage, 7) ∷ []

plain_hits : All (λ (u : Update). All HasPlain u.0) two_hits
plain_hits = ((refl, tt), ((refl, tt), tt))

handle_remote_delta-updates_example :
    let (m', ds) = updates language.host one_player "p1" two_hits in
    AreTwins m' (handle_remote_delta language node "n2" ds 20).manager "p1"
unfolding StateSynchronizer.create
handle_remote_delta-updates_example =
    handle_remote_delta-updates language one_player node "n2" "p1" two_hits 20 plain_hits
      one_player-IsRecorded one_player-IsRecorded (player, player, there, there, refl, refl)

-- The player has been hit once.
abbrev hit : StateManager
hit = (update_entity language.host one_player "p1" damage 6).0

abbrev hit_player : EntityState
hit_player = updated language.host damage 6 player

hit-IsHeld : IsHeld hit "p1" hit_player
unfolding create_entity State.create State.update_entity State.write_entity State.add_to_history
    State.recorded Map.get Map.set
hit-IsHeld = record {
  refs =
      (reachable-IsRecorded language.host 100 hit
        (Reachable.updates "p1" damage 6 one_player-Reachable)).refs;
  held =
      (update_entity-held language.host one_player "p1" damage 6 player one_player-IsRecorded.refs
        there).0;
  past = (delta_of player "p1" damage 6, refl);
  room = omega arith;
}

abbrev hit_node : StateSynchronizer
hit_node = record node { manager = hit }

update_echoes_example :
    IsEchoing
      (flushes language (update language hit_node "p1" damage 8) (9 ∷ 10 ∷ 11 ∷ []))
      "p1"
      (hit_player.version + 1 + 3)
unfolding StateSynchronizer.create
update_echoes_example =
    update_echoes language hit_node "p1" damage 8 hit_player (9 ∷ 10 ∷ 11 ∷ []) hit-IsHeld refl
      (omega arith)

-- An old delta of another node.
abbrev stale : StateDelta
stale = record {
  entity_id = "p1";
  from_version = 1;
  to_version = 2;
  operations =
      record { op = set; path = "hp"; value = number (pos 1) }
      ∷ record { op = increment; path = "mp"; value = number (pos 2) }
      ∷ [];
  timestamp = 3;
}

stale-IsDirect : All IsDirect stale.operations
unfolding split
stale-IsDirect = ((refl, inl refl), ((refl, inr ("mp", refl)), tt))

handle_delta-conflict_example :
    let s' = handle_delta language hit_node stale 9 in
    (get_entity s'.manager "p1"
      ≡ some (record {
        id = hit_player.id;
        type = hit_player.type;
        owner_id = hit_player.owner_id;
        data_ =
            after_all language.host hit_player.data_ (writes stale.operations ++ stale.operations);
        version = hit_player.version + 1;
        last_modified = 9;
      }))
    × (s'.pending_deltas
        ≡ []
          ++ record {
            entity_id = "p1";
            from_version = hit_player.version;
            to_version = hit_player.version + 1;
            operations = stale.operations;
            timestamp = 9;
          }
            ∷ [])
unfolding StateSynchronizer.create ConflictResolver.create Map.get
handle_delta-conflict_example =
    handle_delta-conflict language hit_node stale 9 hit_player (λ op keys v xs w. refl)
      stale-IsDirect hit-IsHeld (omega arith) refl (λ e. cc e)
