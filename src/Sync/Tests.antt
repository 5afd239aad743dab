-- ===== src/Sync/Tests.antt =====
-- Runs of `ConflictResolver` of src/sync/conflict-resolver.ts.
use sync_engine.Base.{◌≡◌, ◌≢◌, ◌⊎◌, refl, [], leb, if◌then◌else◌}
use sync_engine.Base.Map
use sync_engine.Base.Int.{pos}
use sync_engine.Core.Value.{number, string, object, Fields, end, field}
use sync_engine.Core.Types.{EntityState, StateDelta}
use sync_engine.Core.StateManager.Operations.{property, put}
use sync_engine.Sync.ConflictResolver.{create, resolve, deep_merge}
use sync_engine.Sync.ConflictResolver.Convergence.{last_write_wins_converges}
use sync_engine.Sync.ConflictResolver.Merging.{own_value, IsObject}

abbrev ours : Fields
ours = field "stats" (object (field "hp" (number (pos 80)) end)) end

abbrev theirs : Fields
theirs = field "stats" (object (field "mp" (number (pos 5)) end)) (field "name" (string "Bo") end)

both :
    deep_merge ours theirs
    ≡ field "stats"
        (object (field "hp" (number (pos 80)) (field "mp" (number (pos 5)) end)))
        (field "name" (string "Bo") end)
unfolding deep_merge property put
both = refl

abbrev early : EntityState
early = record {
  id = "p1";
  type = "player";
  owner_id = "o";
  data_ = ours;
  version = 2;
  last_modified = 5;
}

abbrev late : EntityState
late = record early { data_ = theirs; last_modified = 6 }

abbrev delta : StateDelta
delta = record {
  entity_id = "p1";
  from_version = 1;
  to_version = 2;
  operations = [];
  timestamp = 5;
}

last_write_wins_converges_example :
    let here = (resolve create early late delta delta 7).1.entity in
    let there = (resolve create late early delta delta 8).1.entity in
    ((early.last_modified ≢ late.last_modified)
      × (here ≡ there)
      × (here ≡ (if leb late.last_modified early.last_modified then early else late)))
    ⊎ ((early.last_modified ≡ late.last_modified) × (here ≡ early) × (there ≡ late))
unfolding create Map.get
last_write_wins_converges_example =
    last_write_wins_converges create create early late delta delta 7 8 refl refl refl refl

theirs-IsObject : IsObject theirs
unfolding IsObject own_value
theirs-IsObject = (refl, (refl, tt))
