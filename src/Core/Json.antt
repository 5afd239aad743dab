-- ===== src/Core/Json.antt =====
-- What JSON makes of the values of a `Record<string, unknown>`, as src/persistence/snapshot-manager.ts
-- writes and reads them.
use sync_engine.Base.{◌≡◌, refl, ap, ◌∙◌, Bool, true, false, ◌&&◌}
use sync_engine.Core.Value.{
  Value, undefined, null, boolean, number, string, array, object, Items, no_items, item, Fields,
  end, field,
}

-- What `JSON.parse` reads in the text of `JSON.stringify`: a property that is `undefined` is left out,
-- and an item of an array that is `undefined` comes back as `null`.
unfoldable mutual
  pub json_fields : Fields → Fields
  json_fields end = end
  json_fields (field key undefined fs) = json_fields fs
  json_fields (field key null fs) = field key null (json_fields fs)
  json_fields (field key (boolean b) fs) = field key (boolean b) (json_fields fs)
  json_fields (field key (number n) fs) = field key (number n) (json_fields fs)
  json_fields (field key (string s) fs) = field key (string s) (json_fields fs)
  json_fields (field key (array xs) fs) = field key (array (json_items xs)) (json_fields fs)
  json_fields (field key (object gs) fs) = field key (object (json_fields gs)) (json_fields fs)

  pub json_items : Items → Items
  json_items no_items = no_items
  json_items (item undefined xs) = item null (json_items xs)
  json_items (item null xs) = item null (json_items xs)
  json_items (item (boolean b) xs) = item (boolean b) (json_items xs)
  json_items (item (number n) xs) = item (number n) (json_items xs)
  json_items (item (string s) xs) = item (string s) (json_items xs)
  json_items (item (array ys) xs) = item (array (json_items ys)) (json_items xs)
  json_items (item (object gs) xs) = item (object (json_fields gs)) (json_items xs)

-- There is no `undefined` anywhere.
unfoldable mutual
  pub fields_defined : Fields → Bool
  fields_defined end = true
  fields_defined (field key v fs) = value_defined v && fields_defined fs

  items_defined : Items → Bool
  items_defined no_items = true
  items_defined (item v xs) = value_defined v && items_defined xs

  value_defined : Value → Bool
  value_defined undefined = false
  value_defined null = true
  value_defined (boolean b) = true
  value_defined (number n) = true
  value_defined (string s) = true
  value_defined (array xs) = items_defined xs
  value_defined (object fs) = fields_defined fs

both : (a b : Bool) → (a && b) ≡ true → (a ≡ true) × (b ≡ true)
both true b h = (refl, h)
both false b h = absurd (cc h)

mutual
  unfolding json_fields fields_defined

  pub json_fields-defined : (fs : Fields) → fields_defined fs ≡ true → json_fields fs ≡ fs
  json_fields-defined end h = refl
  json_fields-defined (field k undefined fs) h = absurd (cc h)
  json_fields-defined (field k null fs) h = ap (field k null) (json_fields-defined fs h)
  json_fields-defined (field k (boolean b) fs) h =
      ap (field k (boolean b)) (json_fields-defined fs h)
  json_fields-defined (field k (number n) fs) h = ap (field k (number n)) (json_fields-defined fs h)
  json_fields-defined (field k (string s) fs) h = ap (field k (string s)) (json_fields-defined fs h)
  json_fields-defined (field k (array xs) fs) h =
      let (here, later) = both (items_defined xs) (fields_defined fs) h in
      ap (λ ys. field k (array ys) (json_fields fs)) (json_items-defined xs here)
      ∙ ap (field k (array xs)) (json_fields-defined fs later)
  json_fields-defined (field k (object gs) fs) h =
      let (here, later) = both (fields_defined gs) (fields_defined fs) h in
      ap (λ hs. field k (object hs) (json_fields fs)) (json_fields-defined gs here)
      ∙ ap (field k (object gs)) (json_fields-defined fs later)

  json_items-defined : (xs : Items) → items_defined xs ≡ true → json_items xs ≡ xs
  json_items-defined no_items h = refl
  json_items-defined (item undefined xs) h = absurd (cc h)
  json_items-defined (item null xs) h = ap (item null) (json_items-defined xs h)
  json_items-defined (item (boolean b) xs) h = ap (item (boolean b)) (json_items-defined xs h)
  json_items-defined (item (number n) xs) h = ap (item (number n)) (json_items-defined xs h)
  json_items-defined (item (string s) xs) h = ap (item (string s)) (json_items-defined xs h)
  json_items-defined (item (array ys) xs) h =
      let (here, later) = both (items_defined ys) (items_defined xs) h in
      ap (λ zs. item (array zs) (json_items xs)) (json_items-defined ys here)
      ∙ ap (item (array ys)) (json_items-defined xs later)
  json_items-defined (item (object gs) xs) h =
      let (here, later) = both (fields_defined gs) (items_defined xs) h in
      ap (λ hs. item (object hs) (json_items xs)) (json_fields-defined gs here)
      ∙ ap (item (object gs)) (json_items-defined xs later)
