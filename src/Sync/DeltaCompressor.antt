-- ===== src/Sync/DeltaCompressor.antt =====
-- `DeltaCompressor` of src/sync/delta-compressor.ts. The text of the template
-- `${op.path}:${op.op}:${JSON.stringify(op.value)}` is a parameter. The compression ratio is kept as
-- the counts that it is a quotient of.
pub mod Collapse
pub mod Groups
mod Tests
use sync_engine.Base.{
  ℕ, ◌+◌, ◌-◌, String, Option, none, some, List, [], ◌∷◌, ◌++◌, leb, length, or_else, if◌then◌else◌,
}
use sync_engine.Base.Int.{ℤ, pos, ◌+ℤ◌}
use sync_engine.Base.Map
use sync_engine.Base.Map.{Map}
use sync_engine.Base.Sort
use sync_engine.Core.Types.{Op, set, delete, increment, append, remove, DeltaOperation, StateDelta}
use sync_engine.Core.Value.{number}
use sync_engine.Core.StateManager.Operations.{Host, as_number, or_number}

-- The ratio is 1 - `ratio.0` / `ratio.1`.
pub record DeltaCompressor : Type 0 where
  pub ratio : ℕ × ℕ
  pub total_compressed : ℕ

unfoldable pub create : DeltaCompressor
create = record { ratio = (1, 1); total_compressed = 0 }

abbrev pub Text : Type 0
Text = DeltaOperation → String

-- `(Number(existing.value) || 0) + (Number(op.value) || 1)`
abbrev pub raised : Host → DeltaOperation → DeltaOperation → DeltaOperation
raised h existing op = record existing {
  value =
      number (
        or_number (as_number h existing.value) (pos 0) +ℤ or_number (as_number h op.value) (pos 1));
}

-- The kept operation after an increment at its path.
unfoldable pub add_increment : Host → DeltaOperation → DeltaOperation → DeltaOperation
add_increment h existing op = elim existing.op [
  | increment ↦ raised h existing op
  | set ↦ raised h existing op
  | delete ↦ op
  | append ↦ op
  | remove ↦ op
]

-- One round of the loop, by the operation that is kept at the path and the switch on the new one.
unfoldable pub collapse_onto :
    Host → Text → Map DeltaOperation → Option DeltaOperation → DeltaOperation → Map DeltaOperation
unfolding add_increment
collapse_onto h text m none op = Map.set m op.path op
collapse_onto h text m (some existing) op = elim op.op [
  | set ↦ Map.set m op.path op
  | delete ↦ Map.set m op.path op
  | increment ↦ Map.set m op.path (add_increment h existing op)
  | append ↦ Map.set m (text op) op
  | remove ↦ Map.set m (text op) op
]

unfoldable pub collapse_from :
    Host → Text → Map DeltaOperation → List DeltaOperation → Map DeltaOperation
unfolding collapse_onto
collapse_from h text m [] = m
collapse_from h text m (op ∷ ops) =
    collapse_from h text (collapse_onto h text m (Map.get m op.path) op) ops

unfoldable pub collapse_operations : Host → Text → List DeltaOperation → List DeltaOperation
unfolding collapse_from
collapse_operations h text ops = Map.values (collapse_from h text [] ops)

-- `deltas.flatMap(d => d.operations)`
unfoldable pub all_operations : List StateDelta → List DeltaOperation
all_operations [] = []
all_operations (d ∷ ds) = d.operations ++ all_operations ds

abbrev pub last_of : StateDelta → List StateDelta → StateDelta
last_of d [] = d
last_of d (e ∷ es) = last_of e es

-- The delta of a list that is sorted.
unfoldable pub merge_sorted : Host → Text → List StateDelta → Option StateDelta
unfolding collapse_operations all_operations
merge_sorted h text [] = none
merge_sorted h text (first ∷ rest) = some (record {
  entity_id = first.entity_id;
  from_version = first.from_version;
  to_version = (last_of first rest).to_version;
  operations = collapse_operations h text (all_operations (first ∷ rest));
  timestamp = (last_of first rest).timestamp;
})

unfoldable pub merge_entity_deltas : Host → Text → List StateDelta → Option StateDelta
unfolding merge_sorted
merge_entity_deltas h text ds = merge_sorted h text (Sort.sort (λ (d : StateDelta). d.timestamp) ds)

unfoldable pub group_deltas : Map (List StateDelta) → List StateDelta → Map (List StateDelta)
group_deltas m [] = m
group_deltas m (d ∷ ds) =
    group_deltas (Map.set m d.entity_id (or_else (Map.get m d.entity_id) [] ++ d ∷ [])) ds

unfoldable pub compress_group : Host → Text → List StateDelta → List StateDelta
unfolding merge_entity_deltas
compress_group h text (d ∷ []) = d ∷ []
compress_group h text ds = elim (merge_entity_deltas h text ds) [ none ↦ [] | some d ↦ d ∷ [] ]

unfoldable pub compress_groups : Host → Text → List (List StateDelta) → List StateDelta
unfolding compress_group
compress_groups h text [] = []
compress_groups h text (g ∷ gs) = compress_group h text g ++ compress_groups h text gs

unfoldable pub compress :
    Host → Text → DeltaCompressor → List StateDelta → DeltaCompressor × List StateDelta
unfolding compress_groups group_deltas
compress h text c deltas =
    if leb (length deltas) 1
    then (c, deltas)
    else (let compressed : List StateDelta =
          compress_groups h text (Map.values (group_deltas [] deltas)) in
        (
          record {
            ratio = (length compressed, length deltas);
            total_compressed = c.total_compressed + (length deltas - length compressed);
          },
          compressed,
        ))

-- `getStats`
abbrev pub get_stats : DeltaCompressor → (ℕ × ℕ) × ℕ
get_stats c = (c.ratio, c.total_compressed)
