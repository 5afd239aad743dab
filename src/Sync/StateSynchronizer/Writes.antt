-- ===== src/Sync/StateSynchronizer/Writes.antt =====
-- What `applyOperationToData` of src/sync/state-synchronizer.ts does beside `applyOperation` of
-- src/core/state-manager.ts.
use sync_engine.Base.{
  ◌≡◌, refl, ap, ◌∙◌, ◌⊎◌, inl, inr, String, Bool, true, false, List, [], ◌∷◌, ◌++◌, filter, All,
  Bool-cases,
}
use sync_engine.Core.Value.{
  Value, undefined, null, boolean, number, string, array, object, Items, Fields, end,
}
use sync_engine.Core.Types.{DeltaOperation, Op, set, delete, increment, append, remove}
use sync_engine.Core.StateManager.Split.{split}
use sync_engine.Core.StateManager.Operations.{
  Host, property, put, enter, change, apply_at, apply_operation,
}
use sync_engine.Core.StateManager.Snapshots.{after_all}
use sync_engine.Sync.StateSynchronizer.{Language, apply_to_data, data_at, change_data}
use sync_engine.Sync.StateSynchronizer.Replicas.{HasPlain}

-- An operation that writes or deletes.
abbrev pub is_write : Op → Bool
is_write set = true
is_write delete = true
is_write _ = false

-- The operations of a list that write or delete.
abbrev pub writes : List DeltaOperation → List DeltaOperation
writes ops = filter (λ (op : DeltaOperation). is_write op.op) ops

-- An operation with a plain value, which writes or deletes or else is on a property of the entity
-- itself.
abbrev pub IsDirect : DeltaOperation → Type 0
IsDirect op =
    HasPlain op × ((is_write op.op ≡ true) ⊎ ((key : String) × (split op.path ≡ key ∷ [])))

-- What a write or a deletion does inside an array is the same on both ways into it.
abbrev pub AgreeInArrays : Language → Type 0
AgreeInArrays l =
    (op : Op) (keys : List String) (v : Value) (xs : Items)
    → is_write op ≡ true
    → l.into_array op keys v xs ≡ l.host.into_array op keys v xs

enter_agree :
    (f f' : Fields → Fields) (g g' : Items → Items) (v : Value)
    → ((fs : Fields) → f fs ≡ f' fs)
    → ((xs : Items) → g xs ≡ g' xs)
    → enter f g v ≡ enter f' g' v
unfolding enter
enter_agree f f' g g' (object fs) p q = ap object (p fs)
enter_agree f f' g g' (array xs) p q = ap array (q xs)
enter_agree f f' g g' (string _) p q = ap object (p end)
enter_agree f f' g g' (number _) p q = ap object (p end)
enter_agree f f' g g' (boolean _) p q = ap object (p end)
enter_agree f f' g g' undefined p q = ap object (p end)
enter_agree f f' g g' null p q = ap object (p end)

change_data-eq-change :
    (h : Host) (op : Op) (v : Value) (key : String) (fs : Fields)
    → is_write op ≡ true
    → change_data op v key fs ≡ change h op v key fs
unfolding change_data change
change_data-eq-change h set v key fs w = refl
change_data-eq-change h delete v key fs w = refl
change_data-eq-change h increment v key fs w = absurd (cc w)
change_data-eq-change h append v key fs w = absurd (cc w)
change_data-eq-change h remove v key fs w = absurd (cc w)

data_at-eq-apply_at :
    (l : Language) (op : Op) (v : Value) (keys : List String) (fs : Fields)
    → AgreeInArrays l
    → is_write op ≡ true
    → data_at l op v keys fs ≡ apply_at l.host op v keys fs
unfolding data_at apply_at
data_at-eq-apply_at l op v [] fs agree w = refl
data_at-eq-apply_at l op v (key ∷ []) fs agree w = change_data-eq-change l.host op v key fs w
data_at-eq-apply_at l op v (key ∷ next ∷ keys) fs agree w =
    ap (λ x. put key x fs)
      (enter_agree (data_at l op v (next ∷ keys)) (apply_at l.host op v (next ∷ keys)) _ _
        (property fs key) (λ gs. data_at-eq-apply_at l op v (next ∷ keys) gs agree w)
        (λ xs. agree op (next ∷ keys) v xs w))

change_data-other :
    (op : Op) (v : Value) (key : String) (fs : Fields)
    → is_write op ≡ false
    → change_data op v key fs ≡ fs
unfolding change_data
change_data-other set v key fs w = absurd (cc w)
change_data-other delete v key fs w = absurd (cc w)
change_data-other increment v key fs w = refl
change_data-other append v key fs w = refl
change_data-other remove v key fs w = refl

-- The first application is that of the writes and deletions alone.
pub apply_to_data-eq-after_all :
    (l : Language) (fs : Fields) (ops : List DeltaOperation)
    → AgreeInArrays l
    → All IsDirect ops
    → apply_to_data l fs ops ≡ after_all l.host fs (writes ops)
unfolding apply_to_data apply_operation
apply_to_data-eq-after_all l fs [] agree a = refl
apply_to_data-eq-after_all l fs (op ∷ ops) agree ((_, way), a) =
    elim (Bool-cases (is_write op.op)) [
      | inl w ↦ rw (w) (
          ap (λ gs. apply_to_data l gs ops)
            (data_at-eq-apply_at l op.op op.value (split op.path) fs agree w)
          ∙ apply_to_data-eq-after_all l (apply_operation l.host fs op) ops agree a)
      | inr w ↦ elim way [
        | inl w' ↦ absurd (cc (w, w'))
        | inr (key, p) ↦ rw (w) (
            ap (λ keys. apply_to_data l (data_at l op.op op.value keys fs) ops) p
            ∙ ap (λ gs. apply_to_data l gs ops)
                (unfold data_at in change_data-other op.op op.value key fs w)
            ∙ apply_to_data-eq-after_all l fs ops agree a)
      ]
    ]

pub after_all-append :
    (h : Host) (fs : Fields) (ops ops' : List DeltaOperation)
    → after_all h fs (ops ++ ops') ≡ after_all h (after_all h fs ops) ops'
after_all-append h fs [] ops' = refl
after_all-append h fs (op ∷ ops) ops' = after_all-append h (apply_operation h fs op) ops ops'
