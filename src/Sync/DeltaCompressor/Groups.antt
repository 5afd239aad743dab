-- ===== src/Sync/DeltaCompressor/Groups.antt =====
-- Which deltas src/sync/delta-compressor.ts makes of a batch, and which operations it loses.
use sync_engine.Base.{
  ℕ, zero, suc, ◌+◌, ◌≤◌, ◌≡◌, ◌≢◌, refl, sym, ap, subst, ◌∙◌, inl, inr, String, true, false, ◌||◌,
  none, some, List, [], ◌∷◌, ◌++◌, arith, All, any, length, leb, or_else, replicate, str_eq, eq_iff,
  Bool-cases,
}
use sync_engine.Base.Map
use sync_engine.Base.Map.{Map}
use sync_engine.Base.Map.Laws.{get-set, size-set, Distinct-set, NoRepeat, keys-NoRepeat, any-keys}
use sync_engine.Base.Sort
use sync_engine.Core.Types.{append, DeltaOperation, StateDelta}
use sync_engine.Core.Value.{Value}
use sync_engine.Core.StateManager.Operations.{Host}
use sync_engine.Sync.DeltaCompressor.{
  DeltaCompressor, Text, collapse_onto, collapse_from, collapse_operations, merge_sorted,
  merge_entity_deltas, group_deltas, compress_group, compress_groups, compress,
}

abbrev Groups : Type 0
Groups = Map (List StateDelta)

abbrev pub ids : List StateDelta → List String
ids [] = []
ids (d ∷ ds) = d.entity_id ∷ ids ds

-- A group holds deltas of its entity, at least one.
abbrev IsGroup : String → List StateDelta → Type 0
IsGroup k [] = ⊥
IsGroup k (d ∷ ds) = All (λ (e : StateDelta). e.entity_id ≡ k) (d ∷ ds)

abbrev AllGroups : Groups → Type 0
AllGroups [] = Unit
AllGroups ((k, g) ∷ m) = IsGroup k g × AllGroups m

IsGroup-append :
    (k : String) (g : List StateDelta) (d : StateDelta)
    → All (λ (e : StateDelta). e.entity_id ≡ k) g
    → d.entity_id ≡ k
    → IsGroup k (g ++ d ∷ [])
IsGroup-append k [] d a e = (e, tt)
IsGroup-append k (x ∷ []) d a e = (a.0, (e, tt))
IsGroup-append k (x ∷ y ∷ g) d a e = (a.0, IsGroup-append k (y ∷ g) d a.1 e)

IsGroup-All :
    (k : String) (g : List StateDelta) → IsGroup k g → All (λ (e : StateDelta). e.entity_id ≡ k) g
IsGroup-All k [] h = absurd h
IsGroup-All k (d ∷ ds) h = h

All-insert :
    (k : String) (key : StateDelta → ℕ) (d : StateDelta) (ds : List StateDelta)
    → d.entity_id ≡ k
    → All (λ (e : StateDelta). e.entity_id ≡ k) ds
    → All (λ (e : StateDelta). e.entity_id ≡ k) (Sort.insert key d ds)
unfolding Sort.insert
All-insert k key d [] e a = (e, tt)
All-insert k key d (x ∷ ds) e a = elim (Bool-cases (leb (key d) (key x))) [
  | inl t ↦ rw (t, Sort.insert) (e, a)
  | inr t ↦ rw (t, Sort.insert) (a.0, All-insert k key d ds e a.1)
]

All-sort :
    (k : String) (key : StateDelta → ℕ) (ds : List StateDelta)
    → All (λ (e : StateDelta). e.entity_id ≡ k) ds
    → All (λ (e : StateDelta). e.entity_id ≡ k) (Sort.sort key ds)
unfolding Sort.sort
All-sort k key [] a = tt
All-sort k key (d ∷ ds) a = All-insert k key d (Sort.sort key ds) a.0 (All-sort k key ds a.1)

AllGroups-set :
    (m : Groups) (k : String) (g : List StateDelta)
    → IsGroup k g
    → AllGroups m
    → AllGroups (Map.set m k g)
unfolding Map.set
AllGroups-set [] k g h a = (h, tt)
AllGroups-set ((j, w) ∷ m) k g h a = elim (Bool-cases (str_eq j k)) [
  | inl s ↦ rw (s, Map.set) (subst (λ x. IsGroup x g) (sym (ground (arith, eq_iff j k))) h, a.1)
  | inr s ↦ rw (s, Map.set) (a.0, AllGroups-set m k g h a.1)
]

AllGroups-get :
    (m : Groups) (k : String)
    → AllGroups m
    → All (λ (e : StateDelta). e.entity_id ≡ k) (or_else (Map.get m k) [])
unfolding Map.get
AllGroups-get [] k a = tt
AllGroups-get ((j, w) ∷ m) k a = elim (Bool-cases (str_eq j k)) [
  | inl s ↦
      rw (s, Map.get)
        (subst (λ x. All (λ (e : StateDelta). e.entity_id ≡ x) w) (ground (arith, eq_iff j k))
          (IsGroup-All j w a.0))
  | inr s ↦ rw (s, Map.get) (AllGroups-get m k a.1)
]

-- What the grouping keeps of the deltas.
group_deltas_lem :
    (m : Groups) (ds : List StateDelta)
    → Map.Distinct m
    → AllGroups m
    → let g = group_deltas m ds in
      Map.Distinct g
      × AllGroups g
      × (Map.size g ≤ Map.size m + length ds)
      × ((k : String) → Map.has g k ≡ (Map.has m k || any (str_eq k) (ids ds)))
unfolding group_deltas
group_deltas_lem m [] d a = (d, a, omega arith, λ k. ground arith)
group_deltas_lem m (x ∷ ds) d a =
    let k = x.entity_id in
    let g : List StateDelta = or_else (Map.get m k) [] ++ x ∷ [] in
    let (distinct, groups, few, held) = group_deltas_lem (Map.set m k g) ds (Distinct-set m k g d) (
      AllGroups-set m k g (IsGroup-append k (or_else (Map.get m k) []) x (AllGroups-get m k a) refl)
        a) in
    (
      distinct,
      groups,
      ground (arith, few, size-set m k g),
      λ j. held j ∙ ground (arith, get-set m k j g, eq_iff k j, eq_iff j k),
    )

ids-append : (ds es : List StateDelta) → ids (ds ++ es) ≡ ids ds ++ ids es
ids-append [] es = refl
ids-append (d ∷ ds) es = ap (λ t. d.entity_id ∷ t) (ids-append ds es)

merge_sorted_id :
    (h : Host) (text : Text) (k : String) (ds : List StateDelta)
    → All (λ (e : StateDelta). e.entity_id ≡ k) ds
    → 1 ≤ length ds
    → ids (elim (merge_sorted h text ds) [ none ↦ [] | some d ↦ d ∷ [] ]) ≡ k ∷ []
unfolding merge_sorted
merge_sorted_id h text k [] a n = absurd (omega (arith, n))
merge_sorted_id h text k (d ∷ ds) a n = ap (λ j. j ∷ []) a.0

compress_group_id :
    (h : Host) (text : Text) (k : String) (g : List StateDelta)
    → IsGroup k g
    → ids (compress_group h text g) ≡ k ∷ []
unfolding compress_group merge_entity_deltas
compress_group_id h text k [] a = absurd a
compress_group_id h text k (d ∷ []) a = ap (λ j. j ∷ []) a.0
compress_group_id h text k (d ∷ e ∷ ds) a =
    let key : StateDelta → ℕ = (λ x. x.timestamp) in
    merge_sorted_id h text k (Sort.sort key (d ∷ e ∷ ds)) (All-sort k key (d ∷ e ∷ ds) a)
      (omega (arith, Sort.length-sort key (d ∷ e ∷ ds)))

ids-compress_groups :
    (h : Host) (text : Text) (m : Groups)
    → AllGroups m
    → ids (compress_groups h text (Map.values m)) ≡ Map.keys m
unfolding compress_groups Map.values Map.keys
ids-compress_groups h text [] a = refl
ids-compress_groups h text ((k, g) ∷ m) a =
    ids-append (compress_group h text g) (compress_groups h text (Map.values m))
    ∙ ap (λ t. t ++ ids (compress_groups h text (Map.values m))) (compress_group_id h text k g a.0)
    ∙ ap (λ t. k ∷ t) (ids-compress_groups h text m a.1)

length-ids : (ds : List StateDelta) → length (ids ds) ≡ length ds
length-ids [] = refl
length-ids (d ∷ ds) = omega (arith, length-ids ds)

length-keys : (m : Groups) → length (Map.keys m) ≡ Map.size m
unfolding Map.keys
length-keys [] = refl
length-keys ((k, g) ∷ m) = omega (arith, length-keys m)

-- Of two deltas or more: the compressed deltas are of the entities that the deltas are of, one for each
-- of them. They are not more than the deltas, and their number is the one that the counts are made
-- of.
pub compress_lem :
    (h : Host) (text : Text) (c : DeltaCompressor) (deltas : List StateDelta)
    → 2 ≤ length deltas
    → let (c', out) = compress h text c deltas in
      NoRepeat (ids out)
      × ((id : String) → any (str_eq id) (ids out) ≡ any (str_eq id) (ids deltas))
      × (length out ≤ length deltas)
      × (c'.ratio ≡ (length out, length deltas))
      × (c'.total_compressed + length out ≡ c.total_compressed + length deltas)
unfolding compress Map.Distinct Map.get
compress_lem h text c deltas several =
    let g = group_deltas [] deltas in
    let out = compress_groups h text (Map.values g) in
    let (distinct, groups, few, held) = group_deltas_lem [] deltas tt tt in
    let same : ids out ≡ Map.keys g = ids-compress_groups h text g groups in
    let short : length out ≤ length deltas =
      omega (arith, few, length-ids out, ap length same, length-keys g) in
    let more : leb (length deltas) 1 ≡ false = ground arith in
    rw (more, compress)
      (
        subst NoRepeat (sym same) (keys-NoRepeat g distinct),
        λ id. ap (any (str_eq id)) same ∙ any-keys g id ∙ held id,
        short,
        refl,
        omega (arith, short),
      )

abbrev pub appended : String → Value → DeltaOperation
appended path v = record { op = append; path = path; value = v }

collapse_from-replicate :
    (h : Host) (text : Text) (path : String) (v : Value) (n : ℕ)
    → let op = appended path v in
      let m : Map DeltaOperation = (path, op) ∷ (text op, op) ∷ [] in
      text op ≢ path → collapse_from h text m (replicate n op) ≡ m
unfolding collapse_from collapse_onto Map.get Map.set
collapse_from-replicate h text path v zero ne = refl
collapse_from-replicate h text path v (suc n) ne =
    let op = appended path v in
    let same : str_eq path path ≡ true = ground (arith, eq_iff path path) in
    let other : str_eq path (text op) ≡ false = ground (arith, eq_iff path (text op), ne) in
    let again : str_eq (text op) (text op) ≡ true = ground (arith, eq_iff (text op) (text op)) in
    rw (same, collapse_from, collapse_onto, other, again)
      (collapse_from-replicate h text path v n ne)

-- Two or more appends of one value to one path collapse into two: the others are lost. The key of the
-- template is taken to be other than the path.
pub collapse_operations-replicate :
    (h : Host) (text : Text) (path : String) (v : Value) (n : ℕ)
    → text (appended path v) ≢ path
    → collapse_operations h text (replicate (suc (suc n)) (appended path v))
      ≡ appended path v ∷ appended path v ∷ []
unfolding collapse_operations collapse_from collapse_onto Map.get Map.set Map.values
collapse_operations-replicate h text path v n ne =
    let op = appended path v in
    let same : str_eq path path ≡ true = ground (arith, eq_iff path path) in
    let other : str_eq path (text op) ≡ false = ground (arith, eq_iff path (text op), ne) in
    let two : collapse_from h text [] (op ∷ op ∷ replicate n op)
        ≡ collapse_from h text ((path, op) ∷ (text op, op) ∷ []) (replicate n op) =
      rw (same, collapse_from, collapse_onto, other) refl in
    ap Map.values (two ∙ collapse_from-replicate h text path v n ne)
