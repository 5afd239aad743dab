-- ===== src/Core/StateManager/Paths.antt =====
-- What one operation of src/core/state-manager.ts does to the values that the paths of an entity lead to.
use sync_engine.Base.{
  ◌≡◌, ◌≢◌, refl, sym, ap, ◌∙◌, String, Option, some, none, List, [], ◌∷◌, arith, or_else, eq_iff,
}
use sync_engine.Base.Int.{pos, ◌+ℤ◌}
use sync_engine.Core.Value.{
  Value, undefined, null, boolean, number, string, array, object, Fields, end, field,
}
use sync_engine.Core.Types.{Op, set, delete, increment, append, remove, DeltaOperation}
use sync_engine.Core.StateManager.Split.{split}
use sync_engine.Core.StateManager.Operations.{
  Host, property, put, erase, push_item, without_item, as_number, or_number, items_of, change,
  enter, apply_at, apply_operation,
}

pub property-put_self : (key : String) (v : Value) (fs : Fields) → property (put key v fs) key ≡ v
unfolding property put
property-put_self key v end = ground (arith, eq_iff key key)
property-put_self key v (field k w fs) = ground (arith, eq_iff k key, property-put_self key v fs)

pub property-put_ne :
    (key j : String) (v : Value) (fs : Fields) → key ≢ j → property (put key v fs) j ≡ property fs j
unfolding property put
property-put_ne key j v end ne = ground (arith, eq_iff key j)
property-put_ne key j v (field k w fs) ne =
    ground (arith, eq_iff k key, eq_iff k j, eq_iff key j, property-put_ne key j v fs ne)

property-erase_self : (key : String) (fs : Fields) → property (erase key fs) key ≡ undefined
unfolding property erase
property-erase_self key end = refl
property-erase_self key (field k w fs) = ground (arith, property-erase_self key fs)

property-erase_ne :
    (key j : String) (fs : Fields) → key ≢ j → property (erase key fs) j ≡ property fs j
unfolding property erase
property-erase_ne key j end ne = refl
property-erase_ne key j (field k w fs) ne =
    ground (arith, eq_iff k key, eq_iff k j, property-erase_ne key j fs ne)

-- The value that a path leads to, if objects stand on the way.
unfoldable pub read_at : List String → Fields → Option Value
read_at [] fs = none
read_at (key ∷ []) fs = some (property fs key)
read_at (key ∷ next ∷ keys) fs = elim (property fs key) [
  | object g ↦ read_at (next ∷ keys) g
  | array xs ↦ none
  | string s ↦ none
  | number n ↦ none
  | boolean b ↦ none
  | undefined ↦ none
  | null ↦ none
]

abbrev HoldsWithin : (Fields → Type 0) → Value → Type 0
HoldsWithin P (object g) = P g
HoldsWithin P (array xs) = ⊥
HoldsWithin P _ = P end

-- No array stands on the way of the path.
abbrev pub IsFree : List String → Fields → Type 0
IsFree [] fs = Unit
IsFree (key ∷ []) fs = Unit
IsFree (key ∷ next ∷ keys) fs = HoldsWithin (IsFree (next ∷ keys)) (property fs key)

-- The value after an operation, from the one before: the meaning of the five operations.
abbrev pub changed : Host → Op → Value → Value → Value
changed h set v old = v
changed h delete v old = undefined
changed h increment v old =
    number (or_number (as_number h old) (pos 0) +ℤ or_number (as_number h v) (pos 1))
changed h append v old = array (push_item (items_of old) v)
changed h remove v (array xs) = array (without_item v xs)
changed h remove v old = old

removed :
    (h : Host) (v old : Value) (key : String) (fs : Fields)
    → property fs key ≡ old
    → property (change h remove v key fs) key ≡ changed h remove v old
unfolding change
removed h v (array xs) key fs e =
    rw (e, change) (property-put_self key (array (without_item v xs)) fs)
removed h v (object g) key fs e = rw (e, change) e
removed h v (string s) key fs e = rw (e, change) e
removed h v (number n) key fs e = rw (e, change) e
removed h v (boolean b) key fs e = rw (e, change) e
removed h v undefined key fs e = rw (e, change) e
removed h v null key fs e = rw (e, change) e

pub property-change :
    (h : Host) (op : Op) (v : Value) (key : String) (fs : Fields)
    → property (change h op v key fs) key ≡ changed h op v (property fs key)
unfolding change
property-change h set v key fs = property-put_self key v fs
property-change h delete v key fs = property-erase_self key fs
property-change h increment v key fs = property-put_self key _ fs
property-change h append v key fs = property-put_self key _ fs
property-change h remove v key fs = removed h v (property fs key) key fs refl

kept :
    (h : Host) (v old : Value) (key j : String) (fs : Fields)
    → key ≢ j
    → property fs key ≡ old
    → property (change h remove v key fs) j ≡ property fs j
unfolding change
kept h v (array xs) key j fs ne e =
    rw (e, change) (property-put_ne key j (array (without_item v xs)) fs ne)
kept h v (object g) key j fs ne e = rw (e, change) refl
kept h v (string s) key j fs ne e = rw (e, change) refl
kept h v (number n) key j fs ne e = rw (e, change) refl
kept h v (boolean b) key j fs ne e = rw (e, change) refl
kept h v undefined key j fs ne e = rw (e, change) refl
kept h v null key j fs ne e = rw (e, change) refl

pub property-change_ne :
    (h : Host) (op : Op) (v : Value) (key j : String) (fs : Fields)
    → key ≢ j
    → property (change h op v key fs) j ≡ property fs j
unfolding change
property-change_ne h set v key j fs ne = property-put_ne key j v fs ne
property-change_ne h delete v key j fs ne = property-erase_ne key j fs ne
property-change_ne h increment v key j fs ne = property-put_ne key j _ fs ne
property-change_ne h append v key j fs ne = property-put_ne key j _ fs ne
property-change_ne h remove v key j fs ne = kept h v (property fs key) key j fs ne refl

property-apply_at_ne :
    (h : Host) (op : Op) (v : Value) (key j : String) (keys : List String) (fs : Fields)
    → key ≢ j
    → property (apply_at h op v (key ∷ keys) fs) j ≡ property fs j
unfolding apply_at
property-apply_at_ne h op v key j [] fs ne = property-change_ne h op v key j fs ne
property-apply_at_ne h op v key j (next ∷ keys) fs ne = property-put_ne key j _ fs ne

-- The value that was there, or `undefined`.
abbrev pub value_at : List String → Fields → Value
value_at keys fs = or_else (read_at keys fs) undefined

value_at-end : (key : String) (keys : List String) → value_at (key ∷ keys) end ≡ undefined
unfolding read_at property
value_at-end key [] = refl
value_at-end key (next ∷ keys) = refl

-- The value below a value on the way.
abbrev below : List String → Value → Option Value
below keys (object g) = read_at keys g
below keys _ = none

read_at-below :
    (key next : String) (keys : List String) (fs : Fields)
    → read_at (key ∷ next ∷ keys) fs ≡ below (next ∷ keys) (property fs key)
unfolding read_at
read_at-below key next keys fs = refl

abbrev Reads : Host → Op → Value → List String → Fields → Type 0
Reads h op v keys fs =
    read_at keys (apply_at h op v keys fs) ≡ some (changed h op v (value_at keys fs))

IsFree-end : (keys : List String) → IsFree keys end
unfolding property
IsFree-end [] = tt
IsFree-end (key ∷ []) = tt
IsFree-end (key ∷ next ∷ keys) = IsFree-end (next ∷ keys)

entered :
    (h : Host) (op : Op) (v old : Value) (next : String) (keys : List String)
    → ((fs : Fields) → IsFree (next ∷ keys) fs → Reads h op v (next ∷ keys) fs)
    → HoldsWithin (IsFree (next ∷ keys)) old
    → below
        (next ∷ keys)
        (enter (apply_at h op v (next ∷ keys)) (h.into_array op (next ∷ keys) v) old)
      ≡ some (changed h op v (or_else (below (next ∷ keys) old) undefined))
unfolding enter
entered h op v (object g) next keys ih free = ih g free
entered h op v (array xs) next keys ih free = absurd free
entered h op v (string s) next keys ih free =
    ih end free ∙ ap (λ w. some (changed h op v w)) (value_at-end next keys)
entered h op v (number n) next keys ih free =
    ih end free ∙ ap (λ w. some (changed h op v w)) (value_at-end next keys)
entered h op v (boolean b) next keys ih free =
    ih end free ∙ ap (λ w. some (changed h op v w)) (value_at-end next keys)
entered h op v undefined next keys ih free =
    ih end free ∙ ap (λ w. some (changed h op v w)) (value_at-end next keys)
entered h op v null next keys ih free =
    ih end free ∙ ap (λ w. some (changed h op v w)) (value_at-end next keys)

apply_at-Reads :
    (h : Host) (op : Op) (v : Value) (key : String) (keys : List String) (fs : Fields)
    → IsFree (key ∷ keys) fs
    → Reads h op v (key ∷ keys) fs
unfolding apply_at
apply_at-Reads h op v key [] fs free = unfold read_at in ap some (property-change h op v key fs)
apply_at-Reads h op v key (next ∷ keys) fs free =
    read_at-below key next keys (apply_at h op v (key ∷ next ∷ keys) fs)
    ∙ ap (below (next ∷ keys)) (
        property-put_self key
          (enter (apply_at h op v (next ∷ keys)) (h.into_array op (next ∷ keys) v)
            (property fs key))
          fs)
    ∙ entered h op v (property fs key) next keys (λ g f. apply_at-Reads h op v next keys g f) free
    ∙ ap (λ w. some (changed h op v (or_else w undefined))) (sym (read_at-below key next keys fs))

-- For an operation whose path has no array on its way: afterwards the path leads to the value that
-- the operation makes of the one it led to (`undefined` if there was none), also through objects that
-- were not there before; and every property but the one that the path starts with is as it was.
pub apply_operation_effects :
    (h : Host) (fs : Fields) (o : DeltaOperation) (key : String) (keys : List String)
    → split o.path ≡ key ∷ keys
    → IsFree (key ∷ keys) fs
    → let fs' = apply_operation h fs o in
      (read_at (key ∷ keys) fs' ≡ some (changed h o.op o.value (value_at (key ∷ keys) fs)))
      × ((j : String) → key ≢ j → property fs' j ≡ property fs j)
unfolding apply_operation
apply_operation_effects h fs o key keys e free = (
  rw e (apply_at-Reads h o.op o.value key keys fs free),
  λ j ne. rw e (property-apply_at_ne h o.op o.value key j keys fs ne),
)

abbrev zero : Value
zero = number (pos 0)

abbrev one : Value
one = number (pos 1)

entered_alike :
    (h : Host) (old : Value) (next : String) (keys : List String)
    → ((fs : Fields)
        → IsFree (next ∷ keys) fs
        → apply_at h increment zero (next ∷ keys) fs ≡ apply_at h increment one (next ∷ keys) fs)
    → HoldsWithin (IsFree (next ∷ keys)) old
    → enter
        (apply_at h increment zero (next ∷ keys))
        (h.into_array increment (next ∷ keys) zero)
        old
      ≡ enter
          (apply_at h increment one (next ∷ keys))
          (h.into_array increment (next ∷ keys) one)
          old
unfolding enter
entered_alike h (object g) next keys ih free = ap object (ih g free)
entered_alike h (array xs) next keys ih free = absurd free
entered_alike h _ next keys ih free = ap object (ih end (IsFree-end (next ∷ keys)))

zero_as_one :
    (h : Host) (key : String) (keys : List String) (fs : Fields)
    → IsFree (key ∷ keys) fs
    → apply_at h increment zero (key ∷ keys) fs ≡ apply_at h increment one (key ∷ keys) fs
unfolding apply_at
zero_as_one h key [] fs free = unfold change as_number in refl
zero_as_one h key (next ∷ keys) fs free =
    ap (λ w. put key w fs)
      (entered_alike h (property fs key) next keys (λ g f. zero_as_one h next keys g f) free)

-- On a path with no array on its way an increment by 0 is an increment by 1: `Number(value) || 1`
-- takes a 0 for a missing value.
pub increment_zero :
    (h : Host) (fs : Fields) (path key : String) (keys : List String)
    → split path ≡ key ∷ keys
    → IsFree (key ∷ keys) fs
    → apply_operation h fs (record { op = increment; path = path; value = number (pos 0) })
      ≡ apply_operation h fs (record { op = increment; path = path; value = number (pos 1) })
unfolding apply_operation
increment_zero h fs path key keys e free = rw e (zero_as_one h key keys fs free)
