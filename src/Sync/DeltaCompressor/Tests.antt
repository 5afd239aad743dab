-- ===== src/Sync/DeltaCompressor/Tests.antt =====
-- Runs of src/sync/delta-compressor.ts.
use sync_engine.Base.{
  ℕ, suc, ◌+◌, ◌≤◌, ◌≡◌, refl, String, true, none, List, [], ◌∷◌, arith, any, length, replicate,
  str_eq, eq_iff, All,
}
use sync_engine.Base.Int.{pos, ◌+ℤ◌}
use sync_engine.Base.Map
use sync_engine.Base.Map.Laws.{NoRepeat}
use sync_engine.Core.Types.{Op, set, delete, increment, DeltaOperation, StateDelta}
use sync_engine.Core.Value.{Fields, end, field, number, undefined}
use sync_engine.Core.StateManager.Split.{split}
use sync_engine.Core.StateManager.Operations.{Host, property, as_number, apply_all}
use sync_engine.Sync.DeltaCompressor.{
  Text, create, collapse_operations, collapse_from, collapse_onto, add_increment, compress,
}
use sync_engine.Sync.DeltaCompressor.Collapse.{IsTop, IsPlain, apply_all-collapse_operations}
use sync_engine.Sync.DeltaCompressor.Groups.{
  ids, appended, compress_lem, collapse_operations-replicate,
}

abbrev host : Host
host = record {
  into_array = λ op keys v xs. xs;
  number_of_text = λ s. none;
  number_of_array = λ xs. none;
}

abbrev text : Text
text op = "key"

abbrev op_of : Op → String → ℕ → DeltaOperation
op_of o path n = record { op = o; path = path; value = number (pos n) }

abbrev raises : List DeltaOperation
raises =
    op_of set "hp" 10
    ∷ op_of increment "hp" 2
    ∷ op_of increment "xp" 1
    ∷ op_of increment "hp" 3
    ∷ []

abbrev start : Fields
start = field "xp" (number (pos 4)) end

raises-IsTop : All IsTop raises
unfolding split
raises-IsTop = (refl, (refl, (refl, (refl, tt))))

raises-IsPlain : All (IsPlain true) raises
raises-IsPlain = (tt, ((refl, 1, refl), ((refl, 0, refl), ((refl, 2, refl), tt))))

apply_all-collapse_operations_example :
    property (apply_all host start (collapse_operations host text raises)) "hp"
    ≡ property (apply_all host start raises) "hp"
apply_all-collapse_operations_example =
    apply_all-collapse_operations true host text start raises "hp" raises-IsTop raises-IsPlain

-- An increment puts the deletion before it out.
delete_lost :
    collapse_operations host text (op_of delete "hp" 0 ∷ op_of increment "hp" 1 ∷ [])
    ≡ op_of increment "hp" 1 ∷ []
unfolding collapse_operations collapse_from collapse_onto add_increment Map.get Map.set Map.values
delete_lost = refl

abbrev once_more : DeltaOperation
once_more = record { op = increment; path = "hp"; value = undefined }

-- Two increments without a value, each by one, become one increment by one.
increment_lost :
    collapse_operations host text (once_more ∷ once_more ∷ []) ≡ op_of increment "hp" 1 ∷ []
unfolding collapse_operations collapse_from collapse_onto add_increment as_number ◌+ℤ◌ Map.get
    Map.set Map.values
increment_lost = refl

abbrev span_of : String → ℕ → ℕ → List DeltaOperation → StateDelta
span_of id from now ops = record {
  entity_id = id;
  from_version = from;
  to_version = from + 1;
  operations = ops;
  timestamp = now;
}

abbrev batch : List StateDelta
batch = span_of "a" 1 5 raises ∷ span_of "b" 4 6 [] ∷ span_of "a" 2 7 (op_of set "hp" 1 ∷ []) ∷ []

compress_lem_example :
    let (c', out) = compress host text create batch in
    NoRepeat (ids out)
    × ((id : String) → any (str_eq id) (ids out) ≡ any (str_eq id) (ids batch))
    × (length out ≤ length batch)
    × (c'.ratio ≡ (length out, length batch))
    × (c'.total_compressed + length out ≡ create.total_compressed + length batch)
compress_lem_example = compress_lem host text create batch (omega arith)

collapse_operations-replicate_example :
    collapse_operations host text (replicate (suc (suc 3)) (appended "log" (number (pos 1))))
    ≡ appended "log" (number (pos 1)) ∷ appended "log" (number (pos 1)) ∷ []
collapse_operations-replicate_example =
    collapse_operations-replicate host text "log" (number (pos 1)) 3
      (ground (arith, eq_iff "key" "log"))
