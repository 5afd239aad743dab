-- ===== src/Persistence/SnapshotManager/Tests.antt =====
-- Runs of src/persistence/snapshot-manager.ts.
use sync_engine.Base.{◌≡◌, refl, String, true, false, none, some, [], ◌∷◌, arith}
use sync_engine.Base.Map
use mathlib.Core.Option
use sync_engine.Core.Types.{EntityState}
use sync_engine.Core.Json.{fields_defined}
use sync_engine.Core.Value.{end}
use sync_engine.Core.StateManager.Operations.{Host}
use sync_engine.Core.StateManager.State
use sync_engine.Core.StateManager.State.{StateManager, Snapshot, create_entity, get_entity, taken}
use sync_engine.Core.StateManager.Reachable.{Reachable, start, creates, reachable-IsRecorded}
use sync_engine.Persistence.WriteAheadLog
use sync_engine.Persistence.SnapshotManager
use sync_engine.Persistence.SnapshotManager.{
  SnapshotManager, SnapshotMeta, Texts, json_entity, take_snapshot, load_latest_snapshot, meta_of,
}
use sync_engine.Persistence.SnapshotManager.Restore.{load_latest_snapshot-take_snapshot}
use sync_engine.Persistence.SnapshotManager.Idle.{take_snapshot-idle}

abbrev texts : Texts
texts = record {
  json = record { print = λ e. "entry"; parse = λ line. none; bytes = λ line. 5 };
  filename = λ version timestamp. "snapshot";
  numbers_in = λ name. some (1, 1);
  in_order = λ names. names;
  checkpoint_text = λ version now. "checkpoint";
  read_delta = λ contents. none;
}

abbrev host : Host
host = record {
  into_array = λ op keys v xs. xs;
  number_of_text = λ s. none;
  number_of_array = λ xs. none;
}

abbrev one_player : StateManager
one_player = (create_entity (State.create 100) "player" "o" end (some "p1") "f" 5).0

unused : Map.get (State.create 100).entities "p1" ≡ none
unfolding State.create Map.get
unused = refl

one_player-Reachable : Reachable host 100 one_player
one_player-Reachable = creates "player" "o" end (some "p1") "f" 5 start unused

no_cache : one_player.snapshot ≡ none
unfolding create_entity
no_cache = refl

abbrev snapshots : SnapshotManager
snapshots = SnapshotManager.create one_player (WriteAheadLog.create [] 100) [] 1

-- Everything is cleared after the snapshot.
load_latest_snapshot-take_snapshot_example :
    let s₁ = (take_snapshot texts snapshots 9 "c" (some 20) "wal-1").0 in
    let (s₂, loaded) = load_latest_snapshot (record s₁ { manager = State.clear one_player }) in
    (loaded ≡ true)
    × (s₂.manager.version ≡ one_player.version)
    × ((id : String) → get_entity s₂.manager id ≡ Option.map json_entity (get_entity one_player id))
    × ((id : String) (e : EntityState)
        → get_entity one_player id ≡ some e
        → fields_defined e.data_ ≡ true
        → get_entity s₂.manager id ≡ some e)
unfolding SnapshotManager.create
load_latest_snapshot-take_snapshot_example =
    load_latest_snapshot-take_snapshot texts snapshots 9 20 "c" "wal-1" (State.clear one_player)
      (reachable-IsRecorded host 100 one_player one_player-Reachable).refs no_cache (omega arith) tt

abbrev snap : Snapshot
snap = taken one_player 9 "c"

-- The snapshot is cached and is the one that is kept.
abbrev idle : SnapshotManager
idle = record snapshots {
  manager = record one_player { snapshot = some snap };
  snapshots = meta_of texts snap 20 ∷ [];
}

take_snapshot-idle_example :
    let s₁ = (take_snapshot texts idle 12 "c" (some 20) "wal-1").0 in
    (Map.get s₁.files "snapshot" ≡ none) × (load_latest_snapshot s₁ ≡ (s₁, false))
unfolding SnapshotManager.create
take_snapshot-idle_example =
    take_snapshot-idle texts idle snap (meta_of texts snap 20) [] 12 20 "c" "wal-1" refl refl refl
      refl refl
