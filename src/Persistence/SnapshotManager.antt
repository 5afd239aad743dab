-- ===== src/Persistence/SnapshotManager.antt =====
-- `SnapshotManager` of src/persistence/snapshot-manager.ts, with the state manager and the log that it
-- holds. The directory is a map from the names of the files to what their texts say: what JSON reads in
-- the text that it has made, and `none` for a text that it cannot read. Whether a file can be written,
-- and how many bytes it has then, is an argument, as is the clock. The snapshot timer calls
-- `takeSnapshot`, and so does `stop`.
pub mod Restore
pub mod Idle
mod Tests
use sync_engine.Base.{
  ℕ, ◌+◌, String, Bool, true, false, Option, none, some, List, [], ◌∷◌, ◌++◌, ltb, length,
  get_elem?, if◌then◌else◌,
}
use sync_engine.Base.Map
use sync_engine.Base.Map.{Map}
use sync_engine.Core.Json.{json_fields}
use sync_engine.Core.Types.{EntityState, StateSnapshot, StateDelta}
use sync_engine.Core.StateManager.Operations.{Host}
use sync_engine.Core.StateManager.State
use sync_engine.Core.StateManager.State.{
  StateManager, Snapshot, create_snapshot, load_snapshot, update_entity,
}
use sync_engine.Persistence.WriteAheadLog
use sync_engine.Persistence.WriteAheadLog.{
  WriteAheadLog, WalEntry, Json, delta, snapshot, checkpoint, append, replay,
}

pub record SnapshotMeta : Type 0 where
  pub version : ℕ
  pub timestamp : ℕ
  pub entity_count : ℕ
  pub checksum : String
  pub filename : String
  pub size_bytes : ℕ

pub record SnapshotManager : Type 0 where
  pub manager : StateManager
  pub wal : WriteAheadLog
  pub files : Map (Option StateSnapshot)
  pub snapshots : List SnapshotMeta
  pub max_snapshots : ℕ
  pub snapshots_taken : ℕ

-- `snapshot-${version}-${timestamp}.json`, and the two numbers in a name that passes the filter and has the
-- pattern; the order of
-- `sort()` on names; the text of a checkpoint, and the delta that the text of an entry says.
pub record Texts : Type 0 where
  pub json : Json
  pub filename : ℕ → ℕ → String
  pub numbers_in : String → Option (ℕ × ℕ)
  pub in_order : List String → List String
  pub checkpoint_text : ℕ → ℕ → String
  pub read_delta : String → Option StateDelta

unfoldable pub create :
    StateManager → WriteAheadLog → Map (Option StateSnapshot) → ℕ → SnapshotManager
create manager wal files max_snapshots = record {
  manager = manager;
  wal = wal;
  files = files;
  snapshots = [];
  max_snapshots = max_snapshots;
  snapshots_taken = 0;
}

-- An entity in the file.
abbrev pub json_entity : EntityState → EntityState
json_entity e = record e { data_ = json_fields e.data_ }

-- The objects that the references lead to, by their identifiers, as the file has them.
unfoldable pub objects_of : List EntityState → Map ℕ → Map EntityState
objects_of store [] = []
objects_of store ((id, ref) ∷ m) =
    let rest = objects_of store m in
    elim (get_elem? store ref) [ none ↦ rest | some e ↦ (id, json_entity e) ∷ rest ]

-- What the text of the file says.
abbrev pub content_of : StateManager → Snapshot → StateSnapshot
content_of m snap = record {
  version = snap.version;
  timestamp = snap.timestamp;
  entities = objects_of m.store snap.entities;
  checksum = snap.checksum;
}

unfoldable pub prune_old_snapshots :
    ℕ
    → List SnapshotMeta
    → Map (Option StateSnapshot)
    → List SnapshotMeta × Map (Option StateSnapshot)
prune_old_snapshots max [] files = ([], files)
prune_old_snapshots max (oldest ∷ rest) files =
    let shorter = prune_old_snapshots max rest (Map.delete files oldest.filename) in
    if ltb max (length (oldest ∷ rest)) then shorter else (oldest ∷ rest, files)

abbrev pub meta_of : Texts → Snapshot → ℕ → SnapshotMeta
meta_of t snap size = record {
  version = snap.version;
  timestamp = snap.timestamp;
  entity_count = Map.size snap.entities;
  checksum = snap.checksum;
  filename = t.filename snap.version snap.timestamp;
  size_bytes = size;
}

-- The body of `takeSnapshot` once the file is written.
unfoldable pub store_snapshot :
    Texts → SnapshotManager → Snapshot → ℕ → ℕ → String → SnapshotManager
unfolding prune_old_snapshots append
store_snapshot t s snap size now name =
    let meta = meta_of t snap size in
    let (kept, files) =
      prune_old_snapshots s.max_snapshots (s.snapshots ++ meta ∷ [])
        (Map.set s.files meta.filename (some (content_of s.manager snap))) in
    record s {
      wal = (append t.json s.wal checkpoint (t.checkpoint_text snap.version now) now name).0;
      files = files;
      snapshots = kept;
      snapshots_taken = s.snapshots_taken + 1;
    }

-- The arguments are the time, what `computeChecksum` returns, the bytes of the file if it can be written, and
-- the name of a file that the log may have to start.
unfoldable pub take_snapshot :
    Texts → SnapshotManager → ℕ → String → Option ℕ → String → SnapshotManager × Option SnapshotMeta
unfolding store_snapshot
take_snapshot t s now checksum written name =
    let (manager, snap) = create_snapshot s.manager now checksum in
    let s' : SnapshotManager = record s { manager = manager } in
    elim written [
      | none ↦ (s', none)
      | some size ↦ (store_snapshot t s' snap size now name, some (meta_of t snap size))
    ]

-- The objects that JSON makes are new: they stand behind the others in the store.
unfoldable pub allocate : List EntityState → Map EntityState → List EntityState × Map ℕ
allocate store [] = (store, [])
allocate store ((id, e) ∷ m) =
    let later = allocate (store ++ e ∷ []) m in (later.0, (id, length store) ∷ later.1)

unfoldable pub load_content : StateManager → StateSnapshot → StateManager
unfolding allocate
load_content m c =
    let (store, refs) = allocate m.store c.entities in
    (load_snapshot (record m { store = store })
      (record {
        version = c.version;
        timestamp = c.timestamp;
        entities = refs;
        checksum = c.checksum;
      })).0

unfoldable pub load_file : SnapshotManager → String → SnapshotManager × Bool
unfolding load_content
load_file s filename = elim (Map.get s.files filename) [
  | none ↦ (s, false)
  | some none ↦ (s, false)
  | some (some c) ↦ (record s { manager = load_content s.manager c }, true)
]

abbrev pub latest : List SnapshotMeta → Option SnapshotMeta
latest [] = none
latest (m ∷ []) = some m
latest (m ∷ n ∷ ms) = latest (n ∷ ms)

unfoldable pub load_latest_snapshot : SnapshotManager → SnapshotManager × Bool
unfolding load_file
load_latest_snapshot s = elim (latest s.snapshots) [
  | none ↦ (s, false)
  | some m ↦ load_file s m.filename
]

unfoldable pub apply_entries : Host → Texts → StateManager → List WalEntry → ℕ → StateManager
apply_entries h t m [] now = m
apply_entries h t m (e ∷ es) now =
    apply_entries h t
      (elim e.type [
        | delta ↦ elim (t.read_delta e.data_) [
          | none ↦ m
          | some d ↦ (update_entity h m d.entity_id d.operations now).0
        ]
        | snapshot ↦ m
        | checkpoint ↦ m
      ])
      es now

unfoldable pub recover_state : Host → Texts → SnapshotManager → ℕ → SnapshotManager
unfolding load_latest_snapshot apply_entries
recover_state h t s now =
    let (s', loaded) = load_latest_snapshot s in
    let from : ℕ = if loaded then s'.manager.version else 0 in
    record s' { manager = apply_entries h t s'.manager (replay t.json s'.wal from) now }

-- A file whose name has the pattern; its size is the last argument's.
abbrev pub indexed : Texts → (String → ℕ) → List String → List SnapshotMeta
indexed t size_of [] = []
indexed t size_of (name ∷ names) =
    let rest = indexed t size_of names in
    elim (t.numbers_in name) [
      | none ↦ rest
      | some (version, timestamp) ↦
          record {
            version = version;
            timestamp = timestamp;
            entity_count = 0;
            checksum = "";
            filename = name;
            size_bytes = size_of name;
          }
          ∷ rest
    ]

unfoldable pub load_snapshot_index : Texts → SnapshotManager → (String → ℕ) → SnapshotManager
load_snapshot_index t s size_of = record s {
  snapshots = indexed t size_of (t.in_order (Map.keys s.files));
}

abbrev pub get_snapshots : SnapshotManager → List SnapshotMeta
get_snapshots s = s.snapshots

-- `getStats`
abbrev pub get_stats : SnapshotManager → ℕ × ℕ × ℕ
get_stats s = (
  s.snapshots_taken,
  length s.snapshots,
  elim (latest s.snapshots) [ none ↦ 0 | some m ↦ m.version ],
)
