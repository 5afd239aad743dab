-- ===== src/Sync/ConflictResolver.antt =====
-- `ConflictResolver` of src/sync/conflict-resolver.ts. A custom resolver is a function that may throw
-- (`none`). The clock is an argument.
pub mod Convergence
pub mod Merging
use sync_engine.Base.{
  ℕ, ◌+◌, String, Bool, true, false, Option, none, some, List, [], ◌∷◌, leb, max, if◌then◌else◌,
}
use sync_engine.Base.Map
use sync_engine.Base.Map.{Map}
use sync_engine.Core.Value.{Value, object, Fields, end, field}
use sync_engine.Core.Types.{EntityState, StateDelta, DeltaOperation}
use sync_engine.Core.StateManager.Operations.{property, put}

pub data ConflictStrategy : Type 0 where
  last_write_wins first_write_wins merge custom : ConflictStrategy

pub record ConflictResult : Type 0 where
  pub resolved : Bool
  pub entity : EntityState
  pub strategy : ConflictStrategy
  pub merged_operations : Option (List DeltaOperation)

abbrev pub CustomResolver : Type 0
CustomResolver = EntityState → EntityState → StateDelta → StateDelta → Option EntityState

pub record ConflictResolver : Type 0 where
  pub default_strategy : ConflictStrategy
  pub custom_resolvers : Map CustomResolver
  pub conflicts_resolved : ℕ
  pub conflicts_failed : ℕ

unfoldable pub create : ConflictResolver
create = record {
  default_strategy = last_write_wins;
  custom_resolvers = [];
  conflicts_resolved = 0;
  conflicts_failed = 0;
}

unfoldable pub set_default_strategy : ConflictResolver → ConflictStrategy → ConflictResolver
set_default_strategy c strategy = record c { default_strategy = strategy }

unfoldable pub register_resolver : ConflictResolver → String → CustomResolver → ConflictResolver
register_resolver c type resolver = record c {
  custom_resolvers = Map.set c.custom_resolvers type resolver;
}

abbrev pub counted : ConflictResolver → ConflictResolver
counted c = record c { conflicts_resolved = c.conflicts_resolved + 1 }

abbrev pub result_of : EntityState → ConflictStrategy → ConflictResult
result_of e strategy = record {
  resolved = true;
  entity = e;
  strategy = strategy;
  merged_operations = none;
}

unfoldable pub resolve_last_write_wins :
    ConflictResolver → EntityState → EntityState → ConflictResolver × ConflictResult
resolve_last_write_wins c local remote = (
  counted c,
  result_of (if leb remote.last_modified local.last_modified then local else remote)
      last_write_wins,
)

unfoldable pub resolve_first_write_wins :
    ConflictResolver → EntityState → EntityState → ConflictResolver × ConflictResult
resolve_first_write_wins c local remote = (
  counted c,
  result_of (if leb local.last_modified remote.last_modified then local else remote)
      first_write_wins,
)

unfoldable mutual
  unfolding put property

  -- `deepMerge`: the loop over the keys of the source, from the copy of the target.
  pub deep_merge : Fields → Fields → Fields
  deep_merge result end = result
  deep_merge result (field key v source) =
      deep_merge (put key (merge_value (property result key) v) result) source

  pub merge_value : Value → Value → Value
  merge_value (object result) (object source) = object (deep_merge result source)
  merge_value _ v = v

unfoldable pub put_all : Map DeltaOperation → List DeltaOperation → Map DeltaOperation
put_all m [] = m
put_all m (op ∷ ops) = put_all (Map.set m op.path op) ops

unfoldable pub put_missing : Map DeltaOperation → List DeltaOperation → Map DeltaOperation
put_missing m [] = m
put_missing m (op ∷ ops) = put_missing (if Map.has m op.path then m else Map.set m op.path op) ops

unfoldable pub merge_operations : List DeltaOperation → List DeltaOperation → List DeltaOperation
unfolding put_all put_missing
merge_operations local_ops remote_ops = Map.values (put_missing (put_all [] local_ops) remote_ops)

unfoldable pub resolve_merge :
    ConflictResolver
    → EntityState
    → EntityState
    → StateDelta
    → StateDelta
    → ℕ
    → ConflictResolver × ConflictResult
unfolding deep_merge merge_operations
resolve_merge c local remote local_delta remote_delta now = (
  counted c,
  record {
    resolved = true;
    entity = record local {
      data_ = deep_merge local.data_ remote.data_;
      version = max local.version remote.version + 1;
      last_modified = now;
    };
    strategy = merge;
    merged_operations = some (merge_operations local_delta.operations remote_delta.operations);
  },
)

unfoldable pub resolve_with_custom :
    ConflictResolver
    → EntityState
    → EntityState
    → StateDelta
    → StateDelta
    → CustomResolver
    → ConflictResolver × ConflictResult
unfolding resolve_last_write_wins
resolve_with_custom c local remote local_delta remote_delta resolver =
    elim (resolver local remote local_delta remote_delta) [
      | some e ↦ (counted c, result_of e custom)
      | none ↦
          resolve_last_write_wins (record c { conflicts_failed = c.conflicts_failed + 1 }) local
            remote
    ]

-- The switch on the strategy.
unfoldable pub resolve_by :
    ConflictStrategy
    → ConflictResolver
    → EntityState
    → EntityState
    → StateDelta
    → StateDelta
    → ℕ
    → ConflictResolver × ConflictResult
unfolding resolve_first_write_wins resolve_merge resolve_last_write_wins
resolve_by first_write_wins c local remote local_delta remote_delta now =
    resolve_first_write_wins c local remote
resolve_by merge c local remote local_delta remote_delta now =
    resolve_merge c local remote local_delta remote_delta now
resolve_by _ c local remote local_delta remote_delta now = resolve_last_write_wins c local remote

unfoldable pub resolve :
    ConflictResolver
    → EntityState
    → EntityState
    → StateDelta
    → StateDelta
    → ℕ
    → ConflictResolver × ConflictResult
unfolding resolve_by resolve_with_custom
resolve c local remote local_delta remote_delta now = elim (Map.get c.custom_resolvers local.type) [
  | some resolver ↦ resolve_with_custom c local remote local_delta remote_delta resolver
  | none ↦ resolve_by c.default_strategy c local remote local_delta remote_delta now
]
