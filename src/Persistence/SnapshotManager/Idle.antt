-- ===== src/Persistence/SnapshotManager/Idle.antt =====
-- What repeated snapshots of one state do to the files of src/persistence/snapshot-manager.ts.
use sync_engine.Base.{
  ℕ, ◌+◌, ◌≡◌, refl, ap, ◌∙◌, String, true, false, Option, none, some, List, [], ◌∷◌, ◌++◌, arith,
  ltb, ◌==◌, length, length-append, eq_iff,
}
use sync_engine.Base.Map
use sync_engine.Base.Map.{Map}
use sync_engine.Base.Map.Laws.{get-delete}
use sync_engine.Core.Types.{StateSnapshot}
use sync_engine.Core.StateManager.State.{Snapshot, create_snapshot}
use sync_engine.Persistence.SnapshotManager.{
  SnapshotManager, SnapshotMeta, Texts, content_of, prune_old_snapshots, meta_of, store_snapshot,
  take_snapshot, load_file, latest, load_latest_snapshot,
}
use sync_engine.Persistence.SnapshotManager.Restore.{latest-snoc}

-- The list is full, so its oldest snapshot goes, and the file of its name.
prune_full :
    (o m : SnapshotMeta) (rest : List SnapshotMeta) (files : Map (Option StateSnapshot)) (max : ℕ)
    → length rest + 1 ≡ max
    → prune_old_snapshots max (o ∷ rest ++ m ∷ []) files
      ≡ (rest ++ m ∷ [], Map.delete files o.filename)
unfolding prune_old_snapshots
prune_full o m [] files max e =
    let over : ltb max 2 ≡ true = ground (arith, e) in
    let fits : ltb max 1 ≡ false = ground (arith, e) in rw (over, prune_old_snapshots, fits) refl
prune_full o m (p ∷ rest) files max e =
    let size = length-append rest (m ∷ []) in
    let over : ltb max (length (o ∷ p ∷ rest ++ m ∷ [])) ≡ true = ground (arith, e, size) in
    let fits : ltb max (length (p ∷ rest ++ m ∷ [])) ≡ false = ground (arith, e, size) in
    rw (over, prune_old_snapshots, fits) refl

latest-end : (rest : List SnapshotMeta) (m : SnapshotMeta) → latest (rest ++ m ∷ []) ≡ some m
latest-end [] m = refl
latest-end (o ∷ rest) m = latest-snoc o rest m

load_latest_snapshot-gone :
    (s : SnapshotManager) (m : SnapshotMeta)
    → latest s.snapshots ≡ some m
    → Map.get s.files m.filename ≡ none
    → load_latest_snapshot s ≡ (s, false)
unfolding load_latest_snapshot load_file
load_latest_snapshot-gone s m e gone = rw (e, load_latest_snapshot, load_file, gone) refl

take_snapshot-cached :
    (t : Texts) (s : SnapshotManager) (snap : Snapshot) (now size : ℕ) (checksum name : String)
    → s.manager.snapshot ≡ some snap
    → snap.version ≡ s.manager.version
    → let s₁ = (take_snapshot t s now checksum (some size) name).0 in
      let meta = meta_of t snap size in
      let kept =
        prune_old_snapshots s.max_snapshots
          (s.snapshots ++ meta ∷ [])
          (Map.set s.files meta.filename (some (content_of s.manager snap))) in
      (s₁.snapshots ≡ kept.0) × (s₁.files ≡ kept.1)
unfolding take_snapshot create_snapshot store_snapshot
take_snapshot-cached t s snap now size checksum name cached same =
    let current : (snap.version == s.manager.version) ≡ true = ground (arith, same) in
    (
      rw (cached, take_snapshot, create_snapshot, current) refl,
      rw (cached, take_snapshot, create_snapshot, current) refl,
    )

-- The state has not changed since its cached snapshot, as many snapshots are kept as may be, and the
-- oldest one has the name that this snapshot gets, as it has when each was taken of this state. Then one
-- more snapshot is written under that name and deleted at once as the oldest one: no file of the name
-- is left, and the latest snapshot cannot be loaded.
pub take_snapshot-idle :
    (t : Texts) (s : SnapshotManager) (snap : Snapshot) (o : SnapshotMeta)
    (rest : List SnapshotMeta) (now size : ℕ) (checksum name : String)
    → s.manager.snapshot ≡ some snap
    → snap.version ≡ s.manager.version
    → s.snapshots ≡ o ∷ rest
    → length s.snapshots ≡ s.max_snapshots
    → o.filename ≡ t.filename snap.version snap.timestamp
    → let s₁ = (take_snapshot t s now checksum (some size) name).0 in
      (Map.get s₁.files (t.filename snap.version snap.timestamp) ≡ none)
      × (load_latest_snapshot s₁ ≡ (s₁, false))
take_snapshot-idle t s snap o rest now size checksum name cached same full count named =
    let s₁ = (take_snapshot t s now checksum (some size) name).0 in
    let meta = meta_of t snap size in
    let f = t.filename snap.version snap.timestamp in
    let files = Map.set s.files f (some (content_of s.manager snap)) in
    let (list_is, files_are) = take_snapshot-cached t s snap now size checksum name cached same in
    let pruned : prune_old_snapshots s.max_snapshots (s.snapshots ++ meta ∷ []) files
        ≡ (rest ++ meta ∷ [], Map.delete files o.filename) =
      ap (λ ms. prune_old_snapshots s.max_snapshots (ms ++ meta ∷ []) files) full
      ∙ prune_full o meta rest files s.max_snapshots (omega (arith, ap length full, count)) in
    let left : s₁.files ≡ Map.delete files f =
      files_are
      ∙ ap (λ (p : List SnapshotMeta × Map (Option StateSnapshot)). p.1) pruned
      ∙ ap (Map.delete files) named in
    let gone : Map.get s₁.files f ≡ none =
      ap (λ (m : Map (Option StateSnapshot)). Map.get m f) left
      ∙ ground (arith, get-delete files f f, eq_iff f f) in
    let last : latest s₁.snapshots ≡ some meta =
      ap latest (list_is ∙ ap (λ (p : List SnapshotMeta × Map (Option StateSnapshot)). p.0) pruned)
      ∙ latest-end rest meta in
    (gone, load_latest_snapshot-gone s₁ meta last gone)
