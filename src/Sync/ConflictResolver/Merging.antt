-- ===== src/Sync/ConflictResolver/Merging.antt =====
-- What the merge of src/sync/conflict-resolver.ts holds at each key.
use sync_engine.Base.{
  ◌≡◌, subst, refl, ◌∙◌, ap, inl, inr, String, Option, none, some, str_eq, eq_iff, if◌then◌else◌,
  Bool-cases,
}
use sync_engine.Core.Value.{Value, Fields, end, field}
use sync_engine.Core.StateManager.Operations.{property, put}
use sync_engine.Core.StateManager.Paths.{property-put_self, property-put_ne}
use sync_engine.Sync.ConflictResolver.{deep_merge, merge_value}

-- The value at a key, if the object has the key.
unfoldable pub own_value : Fields → String → Option Value
own_value end key = none
own_value (field k v fs) key = if str_eq k key then some v else own_value fs key

-- No key stands twice.
unfoldable pub IsObject : Fields → Type 0
IsObject end = Unit
IsObject (field k v fs) = (own_value fs k ≡ none) × IsObject fs

-- The merge of one value: two objects are merged, and otherwise the source's value is taken.
abbrev pub merged : Value → Option Value → Value
merged target none = target
merged target (some v) = merge_value target v

-- For a source that is an object, its keys all different: at each key the merge holds what the
-- target holds if the source has no such key, and else the two objects merged or, if one of the two
-- values is no object, the source's value.
pub deep_merge_lem :
    (target source : Fields) (key : String)
    → IsObject source
    → property (deep_merge target source) key ≡ merged (property target key) (own_value source key)
unfolding deep_merge own_value IsObject
deep_merge_lem target end key u = refl
deep_merge_lem target (field k v source) key u =
    let w = merge_value (property target k) v in
    let rest = deep_merge_lem (put k w target) source key u.1 in
    elim (Bool-cases (str_eq k key)) [
      | inl t ↦
          let self = property-put_self k w target in
          let same = (eq_iff k key).0 t in
          let gone = subst (λ j. own_value source j ≡ none) same u.0 in
          let here =
            subst (λ j. property (put k w target) j ≡ merge_value (property target j) v) same
              self in
          rw t (rest ∙ ap (merged (property (put k w target) key)) gone ∙ here)
      | inr f ↦
          let other = property-put_ne k key w target (λ same. cc (f, (eq_iff k key).1 same)) in
          rw f (rest ∙ ap (λ x. merged x (own_value source key)) other)
    ]
