-- ===== src/Core/StateManager/History.antt =====
-- The histories of the entities of src/core/state-manager.ts, and the deltas read from them.
use sync_engine.Base.{
  ℕ, ◌+◌, ◌≤◌, ◌<◌, ◌≡◌, ◌≢◌, refl, sym, ap, ◌∙◌, inl, inr, String, none, some, List, [], ◌∷◌, ◌++◌,
  arith, length, get_elem?, shift, ltb, or_else, str_eq, eq_iff, if◌then◌else◌, Option-cases,
  Bool-cases, length-append, length-shift, length-set_elem, subst, get_elem?-set_elem_self,
  get_elem?-set_elem_ne,
}
use sync_engine.Base.Map
use sync_engine.Base.Map.Laws.{get-set}
use sync_engine.Core.Types.{EntityState, StateDelta, DeltaOperation}
use sync_engine.Core.StateManager.Operations.{Host}
use sync_engine.Core.StateManager.State.{
  StateManager, get_entity, recorded, add_to_history, delta_of, updated, write_entity,
  update_entity,
}

-- The references of a map lead to objects of the store, and no two keys share one.
pub record AreRefs (store : List EntityState) (m : Map.Map ℕ) : Type 0 where
  pub inside : (id : String) (ref : ℕ) → Map.get m id ≡ some ref → ref < length store
  pub separate : (i j : String) (ref : ℕ) → Map.get m i ≡ some ref → Map.get m j ≡ some ref → i ≡ j

-- Each delta takes the entity to the next version, the next delta starts there, and the last one ends at
-- the given version.
abbrev pub IsChain : List StateDelta → ℕ → Type 0
IsChain [] version = Unit
IsChain (d ∷ []) version = (d.to_version ≡ d.from_version + 1) × (d.to_version ≡ version)
IsChain (d ∷ e ∷ ds) version =
    (d.to_version ≡ d.from_version + 1) × (d.to_version ≡ e.from_version) × IsChain (e ∷ ds) version

-- The history of an identifier.
abbrev pub deltas_of : StateManager → String → List StateDelta
deltas_of s id = or_else (Map.get s.history id) []

-- The history of each entity is a chain to its version, within the bound; what is no entity has none.
pub record IsRecorded (s : StateManager) : Type 0 where
  pub refs : AreRefs s.store s.entities
  pub chain :
      (id : String) (e : EntityState)
      → get_entity s id ≡ some e
      → IsChain (deltas_of s id) e.version
  pub bounded : (id : String) → length (deltas_of s id) ≤ s.max_history
  pub absent : (id : String) → Map.get s.entities id ≡ none → deltas_of s id ≡ []

IsChain-snoc :
    (ds : List StateDelta) (version : ℕ) (d : StateDelta)
    → IsChain ds version
    → d.from_version ≡ version
    → d.to_version ≡ version + 1
    → IsChain (ds ++ d ∷ []) (version + 1)
IsChain-snoc [] version d h p q = (omega arith, q)
IsChain-snoc (c ∷ []) version d h p q = (h.0, omega arith, (omega arith, q))
IsChain-snoc (c ∷ e ∷ ds) version d h p q = (h.0, h.1, IsChain-snoc (e ∷ ds) version d h.2 p q)

IsChain-shift :
    (ds : List StateDelta) (version : ℕ) → IsChain ds version → IsChain (shift ds) version
IsChain-shift [] version h = tt
IsChain-shift (d ∷ []) version h = tt
IsChain-shift (d ∷ e ∷ ds) version h = h.2

recorded-IsChain :
    (n : ℕ) (ds : List StateDelta) (version : ℕ) (d : StateDelta)
    → IsChain ds version
    → d.from_version ≡ version
    → d.to_version ≡ version + 1
    → IsChain (recorded n ds d) (version + 1)
unfolding recorded
recorded-IsChain n ds version d h p q =
    let longer = IsChain-snoc ds version d h p q in
    elim (Bool-cases (ltb n (length (ds ++ d ∷ [])))) [
      | inl t ↦ rw t (IsChain-shift (ds ++ d ∷ []) (version + 1) longer)
      | inr f ↦ rw f longer
    ]

length-recorded :
    (n : ℕ) (ds : List StateDelta) (d : StateDelta) → length ds ≤ n → length (recorded n ds d) ≤ n
unfolding recorded
length-recorded n ds d h = ground (arith, length-append ds (d ∷ []), length-shift (ds ++ d ∷ []))

pub get-write_entity :
    (h : Host) (s : StateManager) (id : String) (ops : List DeltaOperation) (now ref : ℕ)
    (e : EntityState)
    → AreRefs s.store s.entities
    → Map.get s.entities id ≡ some ref
    → get_elem? s.store ref ≡ some e
    → (get_entity (write_entity h s id ops now ref e) id ≡ some (updated h ops now e))
      × ((j : String) → id ≢ j → get_entity (write_entity h s id ops now ref e) j ≡ get_entity s j)
unfolding write_entity
get-write_entity h s id ops now ref e v p q = (
  rw p (get_elem?-set_elem_self s.store ref (updated h ops now e) (v.inside id ref p)),
  λ j ne. elim (Option-cases (Map.get s.entities j)) [
    | inl a ↦ rw a refl
    | inr (other, a) ↦ rw a (
        get_elem?-set_elem_ne s.store ref other (updated h ops now e)
          (λ same. ne (v.separate id j ref p (a ∙ ap some (sym same)))))
  ],
)

pub deltas-write_entity :
    (h : Host) (s : StateManager) (id : String) (ops : List DeltaOperation) (now ref : ℕ)
    (e : EntityState) (j : String)
    → deltas_of (write_entity h s id ops now ref e) j ≡ (
        if str_eq id j
        then recorded s.max_history (deltas_of s id) (delta_of e id ops now)
        else deltas_of s j)
unfolding write_entity add_to_history
deltas-write_entity h s id ops now ref e j = ground (
  arith,
  get-set s.history id j (recorded s.max_history (deltas_of s id) (delta_of e id ops now)),
)

pub write_entity-AreRefs :
    (h : Host) (s : StateManager) (id : String) (ops : List DeltaOperation) (now ref : ℕ)
    (e : EntityState)
    → AreRefs s.store s.entities
    → let s' = write_entity h s id ops now ref e in AreRefs s'.store s'.entities
unfolding write_entity
write_entity-AreRefs h s id ops now ref e v = record {
  inside = λ j r p.
      let lt = v.inside j r p in
      let size = length-set_elem s.store ref (updated h ops now e) in omega (arith, lt, size);
  separate = v.separate;
}

write_entity-IsRecorded :
    (h : Host) (s : StateManager) (id : String) (ops : List DeltaOperation) (now ref : ℕ)
    (e : EntityState)
    → IsRecorded s
    → Map.get s.entities id ≡ some ref
    → get_elem? s.store ref ≡ some e
    → IsRecorded (write_entity h s id ops now ref e)
write_entity-IsRecorded h s id ops now ref e v p q =
    let s' = write_entity h s id ops now ref e in
    let d = delta_of e id ops now in
    let (here, there) = get-write_entity h s id ops now ref e v.refs p q in
    let deltas = deltas-write_entity h s id ops now ref e in
    let old : get_entity s id ≡ some e = rw p q in
    let chain_here : IsChain (recorded s.max_history (deltas_of s id) d) (e.version + 1) =
      recorded-IsChain s.max_history (deltas_of s id) e.version d (v.chain id e old) refl refl in
    record {
      refs = write_entity-AreRefs h s id ops now ref e v.refs;
      chain = λ j x g. elim (Bool-cases (str_eq id j)) [
        | inl t ↦
            let same : updated h ops now e ≡ x = cc ((eq_iff id j).0 t) in
            subst (λ (w : EntityState). IsChain (deltas_of s' j) w.version) same
              (subst (λ ds. IsChain ds (e.version + 1)) (sym (deltas j ∙ rw t refl)) chain_here)
        | inr f ↦
            let ne : id ≢ j = λ same. cc (f, (eq_iff id j).1 same) in
            subst (λ ds. IsChain ds x.version) (sym (deltas j ∙ rw f refl))
              (v.chain j x (sym (there j ne) ∙ g))
      ];
      bounded = λ j.
          unfold write_entity in
          ground (
            arith,
            deltas j,
            v.bounded j,
            length-recorded s.max_history (deltas_of s id) d (v.bounded id),
          );
      absent =
          λ j none_there. unfold write_entity in ground (arith, deltas j, eq_iff id j, v.absent j);
    }

pub update_entity-IsRecorded :
    (h : Host) (s : StateManager) (id : String) (ops : List DeltaOperation) (now : ℕ)
    → IsRecorded s
    → IsRecorded (update_entity h s id ops now).0
unfolding update_entity
update_entity-IsRecorded h s id ops now v = elim (Option-cases (Map.get s.entities id)) [
  | inl p ↦ rw (p, update_entity) v
  | inr (ref, p) ↦ elim (Option-cases (get_elem? s.store ref)) [
    | inl q ↦ rw (p, update_entity, q) v
    | inr (e, q) ↦ rw (p, update_entity, q) (write_entity-IsRecorded h s id ops now ref e v p q)
  ]
]
