-- ===== src/Core/StateManager/Operations.antt =====
-- `applyOperation` of src/core/state-manager.ts on the data of an entity. What the language does with
-- a path that leads into an array, and the numbers that `Number` makes of texts and arrays, are
-- parameters. The values of two operations share no object with
-- each other or with the data, so `!==` holds between any two objects; the source stores the value of a
-- `set` or an `append` by reference, here it is a copy.
use sync_engine.Base.{
  String, Bool, true, false, Option, none, some, List, [], ◌∷◌, ◌==◌, str_eq, if◌then◌else◌,
}
use sync_engine.Base.Int.{ℤ, pos, negsuc, ◌+ℤ◌}
use sync_engine.Core.Value.{
  Value, undefined, null, boolean, number, string, array, object, Items, no_items, item, Fields,
  end, field,
}
use sync_engine.Core.StateManager.Split.{split}
use sync_engine.Core.Types.{Op, set, delete, increment, append, remove, DeltaOperation}

pub record Host : Type 0 where
  pub into_array : Op → List String → Value → Items → Items
  pub number_of_text : String → Option ℤ
  pub number_of_array : Items → Option ℤ

-- `o[key]`
unfoldable pub property : Fields → String → Value
property end key = undefined
property (field k v fs) key = if str_eq k key then v else property fs key

-- `o[key] = v`
unfoldable pub put : String → Value → Fields → Fields
put key v end = field key v end
put key v (field k w fs) =
    let rest = put key v fs in if str_eq k key then field k v fs else field k w rest

-- `delete o[key]`
unfoldable pub erase : String → Fields → Fields
erase key end = end
erase key (field k w fs) = let rest = erase key fs in if str_eq k key then rest else field k w rest

unfoldable pub push_item : Items → Value → Items
push_item no_items v = item v no_items
push_item (item x xs) v = item x (push_item xs v)

abbrev pub int_eq : ℤ → ℤ → Bool
int_eq (pos n) (pos k) = n == k
int_eq (negsuc n) (negsuc k) = n == k
int_eq _ _ = false

abbrev pub bool_eq : Bool → Bool → Bool
bool_eq true b = b
bool_eq false true = false
bool_eq false false = true

-- `a === b`
abbrev pub strict_eq : Value → Value → Bool
strict_eq undefined undefined = true
strict_eq null null = true
strict_eq (boolean a) (boolean b) = bool_eq a b
strict_eq (number a) (number b) = int_eq a b
strict_eq (string a) (string b) = str_eq a b
strict_eq _ _ = false

unfoldable pub without_item : Value → Items → Items
without_item v no_items = no_items
without_item v (item x xs) =
    let rest = without_item v xs in if strict_eq x v then rest else item x rest

-- `Number(v)`, with `none` for NaN.
unfoldable pub as_number : Host → Value → Option ℤ
as_number h undefined = none
as_number h null = some (pos 0)
as_number h (boolean true) = some (pos 1)
as_number h (boolean false) = some (pos 0)
as_number h (number n) = some n
as_number h (string s) = h.number_of_text s
as_number h (array xs) = h.number_of_array xs
as_number h (object fs) = none

-- `n || d`
abbrev pub or_number : Option ℤ → ℤ → ℤ
or_number none d = d
or_number (some n) d = if int_eq n (pos 0) then d else n

-- The items that an append goes to.
abbrev pub items_of : Value → Items
items_of (array xs) = xs
items_of _ = no_items

-- The switch at the last key of the path.
unfoldable pub change : Host → Op → Value → String → Fields → Fields
unfolding as_number
change h set v key fs = put key v fs
change h delete v key fs = erase key fs
change h increment v key fs =
    put key
      (number
        (or_number (as_number h (property fs key)) (pos 0) +ℤ or_number (as_number h v) (pos 1)))
      fs
change h append v key fs = put key (array (push_item (items_of (property fs key)) v)) fs
change h remove v key fs = elim (property fs key) [
  | array xs ↦ put key (array (without_item v xs)) fs
  | object g ↦ fs
  | string s ↦ fs
  | number n ↦ fs
  | boolean b ↦ fs
  | undefined ↦ fs
  | null ↦ fs
]

-- What stands at a key on the way: what is no object is overwritten by an empty one first.
unfoldable pub enter : (Fields → Fields) → (Items → Items) → Value → Value
enter f g (object fs) = object (f fs)
enter f g (array xs) = array (g xs)
enter f g _ = object (f end)

unfoldable pub apply_at : Host → Op → Value → List String → Fields → Fields
unfolding change enter
apply_at h op v [] fs = fs
apply_at h op v (key ∷ []) fs = change h op v key fs
apply_at h op v (key ∷ next ∷ keys) fs =
    put key
      (enter (apply_at h op v (next ∷ keys)) (h.into_array op (next ∷ keys) v) (property fs key)) fs

unfoldable pub apply_operation : Host → Fields → DeltaOperation → Fields
unfolding apply_at split
apply_operation h fs op = apply_at h op.op op.value (split op.path) fs

unfoldable pub apply_all : Host → Fields → List DeltaOperation → Fields
unfolding apply_operation
apply_all h fs [] = fs
apply_all h fs (op ∷ ops) = apply_all h (apply_operation h fs op) ops
