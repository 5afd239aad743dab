-- ===== src/Sync/DeltaCompressor/Collapse.antt =====
-- Whether the collapsed operations of src/sync/delta-compressor.ts do what the plain ones do.
use sync_engine.Base.{
  ℕ, suc, ◌+◌, ◌≡◌, refl, sym, ap, subst, ◌∙◌, inl, inr, String, Bool, true, false, Option, none,
  some, List, [], ◌∷◌, arith, All, str_eq, eq_iff, if◌then◌else◌, Bool-cases,
}
use sync_engine.Base.Int.{ℤ, pos, negsuc, ◌+ℤ◌}
use sync_engine.Base.Map
use sync_engine.Base.Map.{Map}
use sync_engine.Base.Map.Laws.{get-set, Distinct-set, All-set}
use sync_engine.Core.Types.{Op, set, delete, increment, append, remove, DeltaOperation}
use sync_engine.Core.Value.{Value, Fields, number, undefined}
use sync_engine.Core.StateManager.Split.{split}
use sync_engine.Core.StateManager.Operations.{
  Host, property, as_number, or_number, change, apply_at, apply_operation, apply_all,
}
use sync_engine.Core.StateManager.Paths.{changed, property-change, property-change_ne}
use sync_engine.Sync.DeltaCompressor.{
  Text, add_increment, collapse_onto, collapse_from, collapse_operations,
}

-- The value of a property after operations on properties.
abbrev effect : Host → String → List DeltaOperation → Value → Value
effect h k [] v = v
effect h k (op ∷ ops) v =
    effect h k ops (if str_eq op.path k then changed h op.op op.value v else v)

-- The path is the name of a property of the entity.
abbrev pub IsTop : DeltaOperation → Type 0
IsTop op = split op.path ≡ op.path ∷ []

property-apply :
    (h : Host) (fs : Fields) (op : DeltaOperation) (k : String)
    → IsTop op
    → property (apply_operation h fs op) k
      ≡ (if str_eq op.path k then changed h op.op op.value (property fs k) else property fs k)
unfolding apply_operation apply_at
property-apply h fs op k top = elim (Bool-cases (str_eq op.path k)) [
  | inl e ↦
      rw (e, top)
        (subst
          (λ j.
            property (change h op.op op.value op.path fs) j
            ≡ changed h op.op op.value (property fs j))
          (ground (arith, eq_iff op.path k)) (property-change h op.op op.value op.path fs))
  | inr e ↦
      rw (e, top)
        (property-change_ne h op.op op.value op.path k fs (ground (arith, eq_iff op.path k)))
]

property-apply_all :
    (h : Host) (fs : Fields) (ops : List DeltaOperation) (k : String)
    → All IsTop ops
    → property (apply_all h fs ops) k ≡ effect h k ops (property fs k)
unfolding apply_all
property-apply_all h fs [] k a = refl
property-apply_all h fs (op ∷ ops) k a =
    rw (property-apply_all h (apply_operation h fs op) ops k a.1, property-apply h fs op k a.0) refl

-- An operation that sets a property, or deletes one where there are no increments, or raises one by a
-- positive number where there are.
abbrev PlainKind : Bool → Op → Value → Type 0
PlainKind raising set v = Unit
PlainKind raising delete v = raising ≡ false
PlainKind raising increment v = (raising ≡ true) × (n : ℕ) × (v ≡ number (pos (suc n)))
PlainKind raising append v = ⊥
PlainKind raising remove v = ⊥

abbrev pub IsPlain : Bool → DeltaOperation → Type 0
IsPlain raising op = PlainKind raising op.op op.value

-- The operations that are kept at a key have it as their path.
abbrev Entries : Bool → Map DeltaOperation → Type 0
Entries raising [] = Unit
Entries raising ((k, op) ∷ m) = (op.path ≡ k) × IsPlain raising op × Entries raising m

abbrev Entry : Bool → String → Option DeltaOperation → Type 0
Entry raising k none = Unit
Entry raising k (some op) = (op.path ≡ k) × IsPlain raising op

Entries-get :
    (raising : Bool) (m : Map DeltaOperation) (k : String)
    → Entries raising m
    → Entry raising k (Map.get m k)
unfolding Map.get
Entries-get raising [] k a = tt
Entries-get raising ((j, op) ∷ m) k a = elim (Bool-cases (str_eq j k)) [
  | inl e ↦ rw (e, Map.get) (a.0 ∙ ground (arith, eq_iff j k), a.1)
  | inr e ↦ rw (e, Map.get) (Entries-get raising m k a.2)
]

Entries-set :
    (raising : Bool) (m : Map DeltaOperation) (k : String) (op : DeltaOperation)
    → op.path ≡ k
    → IsPlain raising op
    → Entries raising m
    → Entries raising (Map.set m k op)
unfolding Map.set
Entries-set raising [] k op e p a = (e, p, tt)
Entries-set raising ((j, w) ∷ m) k op e p a = elim (Bool-cases (str_eq j k)) [
  | inl s ↦ rw (s, Map.set) (e ∙ ground (arith, eq_iff j k), p, a.2)
  | inr s ↦ rw (s, Map.set) (a.0, a.1, Entries-set raising m k op e p a.2)
]

abbrev acted : Host → Option DeltaOperation → Value → Value
acted h none v = v
acted h (some op) v = changed h op.op op.value v

effect-values :
    (raising : Bool) (h : Host) (m : Map DeltaOperation) (k : String) (v : Value)
    → Map.Distinct m
    → Entries raising m
    → effect h k (Map.values m) v ≡ acted h (Map.get m k) v
unfolding Map.values Map.get Map.Distinct
effect-values raising h [] k v d a = refl
effect-values raising h ((j, op) ∷ m) k v d a =
    let rest : (w : Value) → effect h k (Map.values m) w ≡ acted h (Map.get m k) w =
      (λ w. effect-values raising h m k w d.1 a.2) in
    elim (Bool-cases (str_eq j k)) [
      | inl e ↦
          let absent : Map.get m k ≡ none = ground (arith, eq_iff j k, d.0) in
          rw (rest _, a.0, e, Map.get, absent) refl
      | inr e ↦ rw (rest _, a.0, e, Map.get) refl
    ]

or_zero : (x : ℤ) → or_number (some x) (pos 0) ≡ x
or_zero (pos n) = ground arith
or_zero (negsuc n) = refl

add_assoc_pos : (x : ℤ) (a b : ℕ) → (x +ℤ pos a) +ℤ pos b ≡ x +ℤ pos (a + b)
unfolding ◌+ℤ◌
add_assoc_pos (pos n) a b = ground arith
add_assoc_pos (negsuc n) a b = ground arith

sum_pos : (n k : ℕ) → pos (suc n) +ℤ pos (suc k) ≡ pos (suc n + suc k)
unfolding ◌+ℤ◌
sum_pos n k = ground arith

or_suc : (n : ℕ) (d : ℤ) → or_number (some (pos (suc n))) d ≡ pos (suc n)
or_suc n d = ground arith

or_sum : (n k : ℕ) (d : ℤ) → or_number (some (pos (suc n + suc k))) d ≡ pos (suc n + suc k)
or_sum n k d = ground arith

or_number-plain :
    (h : Host) (v : Value) (n : ℕ) (d : ℤ)
    → v ≡ number (pos (suc n))
    → or_number (as_number h v) d ≡ pos (suc n)
unfolding as_number
or_number-plain h v n d e = ap (λ w. or_number (as_number h w) d) e ∙ or_suc n d

-- The operation that is kept at the path of a new one.
merged : Host → Option DeltaOperation → DeltaOperation → DeltaOperation
merged h none op = op
merged h (some e) op = elim op.op [
  | increment ↦ add_increment h e op
  | set ↦ op
  | delete ↦ op
  | append ↦ op
  | remove ↦ op
]

collapse_onto-merged :
    (raising : Bool) (h : Host) (text : Text) (m : Map DeltaOperation) (old : Option DeltaOperation)
    (o : Op) (path : String) (v : Value)
    → PlainKind raising o v
    → let op : DeltaOperation = record { op = o; path = path; value = v } in
      collapse_onto h text m old op ≡ Map.set m path (merged h old op)
unfolding collapse_onto merged
collapse_onto-merged raising h text m none o path v p = refl
collapse_onto-merged raising h text m (some e) set path v p = refl
collapse_onto-merged raising h text m (some e) delete path v p = refl
collapse_onto-merged raising h text m (some e) increment path v p = refl
collapse_onto-merged raising h text m (some e) append path v p = absurd p
collapse_onto-merged raising h text m (some e) remove path v p = absurd p

-- An increment after an operation of the kinds that it may follow.
changed-add_increment :
    (raising : Bool) (h : Host) (o : Op) (path path' : String) (u v w : Value)
    → PlainKind raising o u
    → PlainKind raising increment v
    → let e : DeltaOperation = record { op = o; path = path; value = u } in
      let kept = add_increment h e (record { op = increment; path = path'; value = v }) in
      (kept.path ≡ path)
      × IsPlain raising kept
      × (changed h kept.op kept.value w ≡ changed h increment v (changed h o u w))
unfolding add_increment as_number
changed-add_increment raising h set path path' u v w p q = (refl, tt, refl)
changed-add_increment raising h delete path path' u v w p q = ground arith
changed-add_increment raising h increment path path' u v w (r, n, e) (r', k, e') =
    let x : ℤ = or_number (as_number h w) (pos 0) in
    let y : ℤ = or_number (as_number h v) (pos 1) in
    let first = or_number-plain h u n (pos 0) e in
    let again = or_number-plain h u n (pos 1) e in
    let second = or_number-plain h v k (pos 1) e' in
    let sum : or_number (as_number h u) (pos 0) +ℤ y ≡ pos (suc n + suc k) =
      ap (λ z. z +ℤ y) first ∙ ap (λ z. pos (suc n) +ℤ z) second ∙ sum_pos n k in
    let once : x +ℤ or_number (some (or_number (as_number h u) (pos 0) +ℤ y)) (pos 1)
        ≡ x +ℤ pos (suc n + suc k) =
      ap (λ z. x +ℤ z) (ap (λ z. or_number (some z) (pos 1)) sum ∙ or_sum n k (pos 1)) in
    let twice : or_number (some (x +ℤ or_number (as_number h u) (pos 1))) (pos 0) +ℤ y
        ≡ x +ℤ pos (suc n + suc k) =
      ap (λ z. z +ℤ y) (or_zero (x +ℤ or_number (as_number h u) (pos 1)))
      ∙ ap (λ z. x +ℤ z +ℤ y) again
      ∙ ap (λ z. x +ℤ pos (suc n) +ℤ z) second
      ∙ add_assoc_pos x (suc n) (suc k) in
    (refl, (r, n + suc k, ap number (sum ∙ ap pos (omega arith))), ap number (once ∙ sym twice))
changed-add_increment raising h append path path' u v w p q = absurd p
changed-add_increment raising h remove path path' u v w p q = absurd p

-- What is kept stands at the path, is plain, and does what the old operation and the new one do.
merged_lem :
    (raising : Bool) (h : Host) (old : Option DeltaOperation) (o : Op) (path : String) (v w : Value)
    → Entry raising path old
    → PlainKind raising o v
    → let op : DeltaOperation = record { op = o; path = path; value = v } in
      ((merged h old op).path ≡ path)
      × IsPlain raising (merged h old op)
      × (acted h (some (merged h old op)) w ≡ changed h o v (acted h old w))
unfolding merged
merged_lem raising h none o path v w a p = (refl, p, refl)
merged_lem raising h (some e) set path v w a p = (refl, p, refl)
merged_lem raising h (some e) delete path v w a p = (refl, p, refl)
merged_lem raising h (some e) increment path v w a p =
    let (same, plain, does) = changed-add_increment raising h e.op e.path path e.value v w a.1 p in
    (same ∙ a.0, plain, does)
merged_lem raising h (some e) append path v w a p = absurd p
merged_lem raising h (some e) remove path v w a p = absurd p

IsTop-collapse :
    (raising : Bool) (h : Host) (text : Text) (m : Map DeltaOperation) (ops : List DeltaOperation)
    → Map.Distinct m
    → Entries raising m
    → All IsTop (Map.values m)
    → All IsTop ops
    → All (IsPlain raising) ops
    → All IsTop (Map.values (collapse_from h text m ops))
unfolding collapse_from
IsTop-collapse raising h text m [] d a b top p = b
IsTop-collapse raising h text m (op ∷ ops) d a b top p =
    let old = Map.get m op.path in
    let entry : Entry raising op.path old = Entries-get raising m op.path a in
    let (same, plain, _) = merged_lem raising h old op.op op.path op.value undefined entry p.0 in
    let stored = collapse_onto-merged raising h text m old op.op op.path op.value p.0 in
    rw (stored, collapse_from)
      (IsTop-collapse raising h text (Map.set m op.path (merged h old op)) ops
        (Distinct-set m op.path (merged h old op) d)
        (Entries-set raising m op.path (merged h old op) same plain a)
        (All-set IsTop m op.path (merged h old op) (subst (λ q. split q ≡ q ∷ []) (sym same) top.0)
          b)
        top.1 p.1)

effect-collapse_from :
    (raising : Bool) (h : Host) (text : Text) (m : Map DeltaOperation) (ops : List DeltaOperation)
    (k : String) (v : Value)
    → Map.Distinct m
    → Entries raising m
    → All (IsPlain raising) ops
    → effect h k (Map.values (collapse_from h text m ops)) v
      ≡ effect h k ops (acted h (Map.get m k) v)
unfolding collapse_from
effect-collapse_from raising h text m [] k v d a p = effect-values raising h m k v d a
effect-collapse_from raising h text m (op ∷ ops) k v d a p =
    let old = Map.get m op.path in
    let kept = merged h old op in
    let entry : Entry raising op.path old = Entries-get raising m op.path a in
    let (same, plain, does) = merged_lem raising h old op.op op.path op.value v entry p.0 in
    let stored : collapse_onto h text m old op ≡ Map.set m op.path kept =
      collapse_onto-merged raising h text m old op.op op.path op.value p.0 in
    let later =
      effect-collapse_from raising h text (Map.set m op.path kept) ops k v
        (Distinct-set m op.path kept d) (Entries-set raising m op.path kept same plain a) p.1 in
    rw (stored, collapse_from)
      (later
        ∙ ap (effect h k ops) (elim (Bool-cases (str_eq op.path k)) [
          | inl e ↦
              let same_key : Map.get m k ≡ Map.get m op.path =
                ap (Map.get m) (sym (ground (arith, eq_iff op.path k))) in
              rw (get-set m op.path k kept, e, same_key) does
          | inr e ↦ rw (get-set m op.path k kept, e) refl
        ]))

-- The operations set properties of the entity, and either delete some of them, or raise some of them
-- by positive numbers and delete none. Then the collapsed operations leave in every property the value
-- that the plain ones leave there, from the same data, one by one and in their order.
pub apply_all-collapse_operations :
    (raising : Bool) (h : Host) (text : Text) (fs : Fields) (ops : List DeltaOperation) (k : String)
    → All IsTop ops
    → All (IsPlain raising) ops
    → property (apply_all h fs (collapse_operations h text ops)) k ≡ property (apply_all h fs ops) k
unfolding collapse_operations Map.Distinct Map.get Map.values
apply_all-collapse_operations raising h text fs ops k top p =
    property-apply_all h fs (collapse_operations h text ops) k
      (IsTop-collapse raising h text [] ops tt tt tt top p)
    ∙ effect-collapse_from raising h text [] ops k (property fs k) tt tt p
    ∙ sym (property-apply_all h fs ops k top)
