-- ===== src/Persistence/SnapshotManager/Restore.antt =====
-- What a snapshot of src/persistence/snapshot-manager.ts brings back.
use sync_engine.Base.{
  ℕ, zero, suc, ◌≤◌, ◌<◌, ◌≡◌, ◌≢◌, refl, sym, ap, ◌∙◌, inl, inr, String, Bool, true, false, Option,
  none, some, List, [], ◌∷◌, ◌++◌, arith, ltb, length, get_elem?, All, str_eq, eq_iff,
  length-append, get_elem?-end, get_elem?-append, Option-cases, Bool-cases,
}
use sync_engine.Base.Map
use sync_engine.Base.Map.{Map}
use sync_engine.Base.Map.Laws.{get-set_self, get-delete}
use mathlib.Core.Option
use sync_engine.Core.Json.{fields_defined, json_fields-defined}
use sync_engine.Core.Types.{EntityState, StateSnapshot}
use sync_engine.Core.StateManager.State.{
  StateManager, get_entity, deref, create_snapshot, load_snapshot, taken,
}
use sync_engine.Core.StateManager.History.{AreRefs}
use sync_engine.Persistence.SnapshotManager.{
  SnapshotManager, SnapshotMeta, Texts, json_entity, objects_of, content_of, prune_old_snapshots,
  meta_of, store_snapshot, take_snapshot, allocate, load_content, load_file, latest,
  load_latest_snapshot,
}

get_elem?-inside : (xs : List EntityState) (i : ℕ) → i < length xs → get_elem? xs i ≢ none
get_elem?-inside [] i h e = absurd (omega (arith, h))
get_elem?-inside (x ∷ xs) zero h e = cc e
get_elem?-inside (x ∷ xs) (suc i) h e = get_elem?-inside xs i (omega (arith, h)) e

get-objects_of :
    (store : List EntityState) (m : Map ℕ) (id : String)
    → ((ref : ℕ) → Map.get m id ≡ some ref → ref < length store)
    → Map.get (objects_of store m) id ≡ Option.map json_entity (deref store (Map.get m id))
unfolding Map.get objects_of
get-objects_of store [] id h = refl
get-objects_of store ((j, ref) ∷ m) id h = elim (Bool-cases (str_eq j id)) [
  | inl t ↦
      let inside : ref < length store = h ref (rw (t, Map.get) refl) in
      elim (Option-cases (get_elem? store ref)) [
        | inl e ↦ absurd (get_elem?-inside store ref inside e)
        | inr (x, e) ↦ rw (e, t, objects_of, Map.get) (ap (Option.map json_entity) (sym e))
      ]
  | inr t ↦
      let rest = get-objects_of store m id (λ r e. h r (rw (t, Map.get) e)) in
      elim (Option-cases (get_elem? store ref)) [
        | inl e ↦ rw (e, t, objects_of, Map.get) rest
        | inr (x, e) ↦ rw (e, t, objects_of, Map.get) rest
      ]
]

get_elem?-allocate :
    (store : List EntityState) (m : Map EntityState) (i : ℕ)
    → i < length store
    → get_elem? (allocate store m).0 i ≡ get_elem? store i
unfolding allocate
get_elem?-allocate store [] i h = refl
get_elem?-allocate store ((id, e) ∷ m) i h =
    get_elem?-allocate (store ++ e ∷ []) m i (omega (arith, h, length-append store (e ∷ [])))
    ∙ get_elem?-append store (e ∷ []) i h

-- The new references lead to the objects.
get-allocate :
    (store : List EntityState) (m : Map EntityState) (id : String)
    → let (store', refs) = allocate store m in deref store' (Map.get refs id) ≡ Map.get m id
unfolding allocate Map.get
get-allocate store [] id = refl
get-allocate store ((j, e) ∷ m) id = elim (Bool-cases (str_eq j id)) [
  | inl t ↦
      rw (t, Map.get)
        (get_elem?-allocate (store ++ e ∷ []) m (length store)
            (omega (arith, length-append store (e ∷ [])))
          ∙ get_elem?-end store e)
  | inr t ↦ rw (t, Map.get) (get-allocate (store ++ e ∷ []) m id)
]

pub latest-snoc :
    (o : SnapshotMeta) (metas : List SnapshotMeta) (m : SnapshotMeta)
    → latest (o ∷ metas ++ m ∷ []) ≡ some m
latest-snoc o [] m = refl
latest-snoc o (p ∷ metas) m = latest-snoc p metas m

-- The newest file stays, if the others have other names.
prune_old_snapshots-latest :
    (max : ℕ) (metas : List SnapshotMeta) (m : SnapshotMeta) (files : Map (Option StateSnapshot))
    (c : Option StateSnapshot)
    → 1 ≤ max
    → All (λ (o : SnapshotMeta). o.filename ≢ m.filename) metas
    → Map.get files m.filename ≡ some c
    → let (kept, files') = prune_old_snapshots max (metas ++ m ∷ []) files in
      (latest kept ≡ some m) × (Map.get files' m.filename ≡ some c)
unfolding prune_old_snapshots
prune_old_snapshots-latest max [] m files c le a e =
    let short : ltb max 1 ≡ false = ground (arith, le) in rw (short, prune_old_snapshots) (refl, e)
prune_old_snapshots-latest max (o ∷ metas) m files c le a e =
    elim (Bool-cases (ltb max (length (o ∷ metas ++ m ∷ [])))) [
      | inl t ↦
          rw (t, prune_old_snapshots)
            (prune_old_snapshots-latest max metas m (Map.delete files o.filename) c le a.1 (
              ground (
                arith,
                get-delete files o.filename m.filename,
                eq_iff o.filename m.filename,
                a.0,
                e,
              )))
      | inr t ↦ rw (t, prune_old_snapshots) (latest-snoc o metas m, e)
    ]

get-load_content :
    (m : StateManager) (c : StateSnapshot) (id : String)
    → get_entity (load_content m c) id ≡ Map.get c.entities id
unfolding load_content load_snapshot
get-load_content m c id = get-allocate m.store c.entities id

load_latest_snapshot-held :
    (s : SnapshotManager) (m : SnapshotMeta) (c : StateSnapshot)
    → latest s.snapshots ≡ some m
    → Map.get s.files m.filename ≡ some (some c)
    → load_latest_snapshot s ≡ (record s { manager = load_content s.manager c }, true)
unfolding load_latest_snapshot load_file
load_latest_snapshot-held s m c e there = rw (e, load_latest_snapshot, load_file, there) refl

-- What `takeSnapshot` leaves in the directory and in the list.
take_snapshot-files :
    (t : Texts) (s : SnapshotManager) (now size : ℕ) (checksum name : String)
    → s.manager.snapshot ≡ none
    → let s₁ = (take_snapshot t s now checksum (some size) name).0 in
      let meta = meta_of t (taken s.manager now checksum) size in
      let c = content_of s.manager (taken s.manager now checksum) in
      let kept =
        prune_old_snapshots s.max_snapshots
          (s.snapshots ++ meta ∷ [])
          (Map.set s.files meta.filename (some c)) in
      (s₁.snapshots ≡ kept.0) × (s₁.files ≡ kept.1)
unfolding take_snapshot create_snapshot store_snapshot
take_snapshot-files t s now size checksum name empty = (
  rw (empty, take_snapshot, create_snapshot) refl,
  rw (empty, take_snapshot, create_snapshot) refl,
)

-- A snapshot taken with none cached, whose file can be written and has a name that no other snapshot has,
-- where one snapshot at least may be kept and the references of the entities lead into the store:
-- whatever becomes of the manager after it, loading the latest snapshot succeeds and gives back every
-- entity, and no other, as JSON reads back what it was when the snapshot was taken, and the version
-- of that time; an entity whose data have no `undefined` anywhere is as it was.
pub load_latest_snapshot-take_snapshot :
    (t : Texts) (s : SnapshotManager) (now size : ℕ) (checksum name : String) (later : StateManager)
    → AreRefs s.manager.store s.manager.entities
    → s.manager.snapshot ≡ none
    → 1 ≤ s.max_snapshots
    → All (λ (o : SnapshotMeta). o.filename ≢ t.filename s.manager.version now) s.snapshots
    → let s₁ = (take_snapshot t s now checksum (some size) name).0 in
      let (s₂, loaded) = load_latest_snapshot (record s₁ { manager = later }) in
      (loaded ≡ true)
      × (s₂.manager.version ≡ s.manager.version)
      × ((id : String)
          → get_entity s₂.manager id ≡ Option.map json_entity (get_entity s.manager id))
      × ((id : String) (e : EntityState)
          → get_entity s.manager id ≡ some e
          → fields_defined e.data_ ≡ true
          → get_entity s₂.manager id ≡ some e)
unfolding load_content load_snapshot
load_latest_snapshot-take_snapshot t s now size checksum name later v empty le apart =
    let snap = taken s.manager now checksum in
    let meta = meta_of t snap size in
    let c = content_of s.manager snap in
    let (last, there) =
      prune_old_snapshots-latest s.max_snapshots s.snapshots meta
        (Map.set s.files meta.filename (some c)) (some c) le apart
        (get-set_self s.files meta.filename (some c)) in
    let (snapshots, files) = take_snapshot-files t s now size checksum name empty in
    let s₁ : SnapshotManager = record (take_snapshot t s now checksum (some size) name).0 {
      manager = later;
    } in
    let done : load_latest_snapshot s₁ ≡ (record s₁ { manager = load_content later c }, true) =
      load_latest_snapshot-held s₁ meta c (ap latest snapshots ∙ last)
        (ap (λ (m : Map (Option StateSnapshot)). Map.get m meta.filename) files ∙ there) in
    let back : (id : String)
        → get_entity (load_latest_snapshot s₁).0.manager id
          ≡ Option.map json_entity (get_entity s.manager id) =
      λ id.
        ap (λ (r : SnapshotManager × Bool). get_entity r.0.manager id) done
        ∙ get-load_content later c id
        ∙ get-objects_of s.manager.store s.manager.entities id (v.inside id) in
    (
      ap (λ (r : SnapshotManager × Bool). r.1) done,
      ap (λ (r : SnapshotManager × Bool). r.0.manager.version) done,
      back,
      λ id e held whole.
          back id
          ∙ ap (Option.map json_entity) held
          ∙ ap (λ fs. some (record e { data_ = fs })) (json_fields-defined e.data_ whole),
    )
