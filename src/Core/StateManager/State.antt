-- ===== src/Core/StateManager/State.antt =====
-- The state of `StateManager` of src/core/state-manager.ts and its operations. The entities are objects
-- in a store: the map of the manager and the maps of its snapshots hold references to them (indices
-- of the store), since `new Map(entities)` copies no entity. The clock and the identifier that
-- `generateId` would give are arguments. The cache holds the key of the snapshot alone. An operation
-- returns the event that it emits.
use sync_engine.Base.{
  ℕ, ◌+◌, ◌*◌, ◌%◌, ◌^◌, String, Bool, true, false, Option, none, some, List, [], ◌∷◌, ◌++◌, ltb,
  leb, ◌==◌, length, get_elem?, set_elem, filter, shift, str_eq, if◌then◌else◌, or_else,
}
use sync_engine.Base.Map
use sync_engine.Base.Map.{Map}
use sync_engine.Base.Sort
use sync_engine.Core.Value.{Fields}
use sync_engine.Core.Types.{EntityState, StateDelta, DeltaOperation}
use sync_engine.Core.StateManager.Operations.{Host, apply_all}

-- `StateSnapshot`, with references.
pub record Snapshot : Type 0 where
  pub version : ℕ
  pub timestamp : ℕ
  pub entities : Map ℕ
  pub checksum : String

pub record StateManager : Type 0 where
  pub store : List EntityState
  pub entities : Map ℕ
  pub history : Map (List StateDelta)
  pub version : ℕ
  pub snapshot : Option Snapshot
  pub max_history : ℕ

pub data Event : Type 0 where
  entity_created : EntityState → Event
  entity_updated : EntityState → StateDelta → Event
  entity_deleted : Option EntityState → Event
  state_loaded : ℕ → Event

unfoldable pub create : ℕ → StateManager
create max_history = record {
  store = [];
  entities = [];
  history = [];
  version = 0;
  snapshot = none;
  max_history = max_history;
}

-- The object that a reference leads to.
abbrev pub deref : List EntityState → Option ℕ → Option EntityState
deref store none = none
deref store (some ref) = get_elem? store ref

abbrev pub get_entity : StateManager → String → Option EntityState
get_entity s id = deref s.store (Map.get s.entities id)

-- The objects of the map's values, in its order.
unfoldable pub entity_list : List EntityState → Map ℕ → List EntityState
entity_list store [] = []
entity_list store ((id, ref) ∷ m) =
    let rest = entity_list store m in elim (get_elem? store ref) [ none ↦ rest | some e ↦ e ∷ rest ]

abbrev pub get_entities_by_type : StateManager → String → List EntityState
get_entities_by_type s type =
    filter (λ (e : EntityState). str_eq e.type type) (entity_list s.store s.entities)

abbrev pub get_entities_by_owner : StateManager → String → List EntityState
get_entities_by_owner s owner =
    filter (λ (e : EntityState). str_eq e.owner_id owner) (entity_list s.store s.entities)

-- `id || generateId()`
abbrev pub chosen_id : Option String → String → String
chosen_id none fresh = fresh
chosen_id (some id) fresh = if str_eq id "" then fresh else id

abbrev pub new_entity : String → String → Fields → String → ℕ → EntityState
new_entity type owner contents id now = record {
  id = id;
  type = type;
  owner_id = owner;
  data_ = contents;
  version = 1;
  last_modified = now;
}

unfoldable pub create_entity :
    StateManager
    → String
    → String
    → Fields
    → Option String
    → String
    → ℕ
    → StateManager × EntityState × List Event
create_entity s type owner contents id fresh now =
    let e = new_entity type owner contents (chosen_id id fresh) now in
    (
      record s {
        store = s.store ++ e ∷ [];
        entities = Map.set s.entities e.id (length s.store);
        version = s.version + 1;
        snapshot = none;
      },
      e,
      entity_created e ∷ [],
    )

-- The list after `push`, and `shift` once it is too long.
unfoldable pub recorded : ℕ → List StateDelta → StateDelta → List StateDelta
recorded max_history deltas d =
    let longer = deltas ++ d ∷ [] in
    if ltb max_history (length longer) then shift longer else longer

unfoldable pub add_to_history : StateManager → String → StateDelta → Map (List StateDelta)
unfolding recorded
add_to_history s id d =
    Map.set s.history id (recorded s.max_history (or_else (Map.get s.history id) []) d)

abbrev pub delta_of : EntityState → String → List DeltaOperation → ℕ → StateDelta
delta_of e id ops now = record {
  entity_id = id;
  from_version = e.version;
  to_version = e.version + 1;
  operations = ops;
  timestamp = now;
}

abbrev pub updated : Host → List DeltaOperation → ℕ → EntityState → EntityState
updated h ops now e = record e {
  data_ = apply_all h e.data_ ops;
  version = e.version + 1;
  last_modified = now;
}

-- The body of `updateEntity` once the object is found.
unfoldable pub write_entity :
    Host → StateManager → String → List DeltaOperation → ℕ → ℕ → EntityState → StateManager
unfolding add_to_history
write_entity h s id ops now ref e = record s {
  store = set_elem s.store ref (updated h ops now e);
  history = add_to_history s id (delta_of e id ops now);
  version = s.version + 1;
  snapshot = none;
}

-- A reference leads to an object, so the last `none` is not reached.
unfoldable pub update_entity :
    Host
    → StateManager
    → String
    → List DeltaOperation
    → ℕ
    → StateManager × Option EntityState × List Event
unfolding write_entity
update_entity h s id ops now = elim (Map.get s.entities id) [
  | none ↦ (s, none, [])
  | some ref ↦ elim (get_elem? s.store ref) [
    | none ↦ (s, none, [])
    | some e ↦ (
      write_entity h s id ops now ref e,
      some (updated h ops now e),
      entity_updated (updated h ops now e) (delta_of e id ops now) ∷ [],
    )
  ]
]

unfoldable pub delete_entity : StateManager → String → StateManager × Bool × List Event
delete_entity s id = elim (Map.get s.entities id) [
  | none ↦ (s, false, [])
  | some ref ↦ (
    record s {
      entities = Map.delete s.entities id;
      history = Map.delete s.history id;
      version = s.version + 1;
      snapshot = none;
    },
    true,
    entity_deleted (get_elem? s.store ref) ∷ [],
  )
]

abbrev pub from_on : ℕ → StateDelta → Bool
from_on since d = leb since d.from_version

unfoldable pub get_entity_history : StateManager → String → Option ℕ → List StateDelta
get_entity_history s id none = or_else (Map.get s.history id) []
get_entity_history s id (some since) = filter (from_on since) (or_else (Map.get s.history id) [])

-- The loop of `computeChecksum` over the UTF-16 units of one text: 32 bits, as an unsigned number.
unfoldable pub hash_units : ℕ → List ℕ → ℕ
hash_units hash [] = hash
hash_units hash (u ∷ us) = hash_units ((hash * 31 + u) % 2 ^ 32) us

-- `units` gives the UTF-16 units of `${id}:${entity.version}:${entity.lastModified}`.
unfoldable pub hash_entities : (String → ℕ → ℕ → List ℕ) → List EntityState → Map ℕ → ℕ → ℕ
unfolding hash_units
hash_entities units store [] hash = hash
hash_entities units store ((id, ref) ∷ m) hash = elim (get_elem? store ref) [
  | none ↦ hash_entities units store m hash
  | some e ↦ hash_entities units store m (hash_units hash (units id e.version e.last_modified))
]

-- `hex` prints the signed number that the 32 bits stand for.
unfoldable pub compute_checksum : (String → ℕ → ℕ → List ℕ) → (ℕ → String) → StateManager → String
unfolding hash_entities
compute_checksum units hex s = hex (hash_entities units s.store s.entities 0)

abbrev pub taken : StateManager → ℕ → String → Snapshot
taken s now checksum = record {
  version = s.version;
  timestamp = now;
  entities = s.entities;
  checksum = checksum;
}

-- The last argument is what `computeChecksum` returns.
unfoldable pub create_snapshot : StateManager → ℕ → String → StateManager × Snapshot
create_snapshot s now checksum = elim s.snapshot [
  | none ↦ (record s { snapshot = some (taken s now checksum) }, taken s now checksum)
  | some old ↦
      if old.version == s.version
      then (s, old)
      else (record s { snapshot = some (taken s now checksum) }, taken s now checksum)
]

unfoldable pub load_snapshot : StateManager → Snapshot → StateManager × List Event
load_snapshot s snap = (
  record s { entities = snap.entities; version = snap.version; history = []; snapshot = none },
  state_loaded snap.version ∷ [],
)

unfoldable pub collect_since : ℕ → List (List StateDelta) → List StateDelta
collect_since version [] = []
collect_since version (h ∷ hs) = filter (from_on version) h ++ collect_since version hs

unfoldable pub get_deltas_since : StateManager → ℕ → List StateDelta
unfolding collect_since
get_deltas_since s version =
    Sort.sort (λ (d : StateDelta). d.timestamp) (collect_since version (Map.values s.history))

abbrev pub entity_count : StateManager → ℕ
entity_count s = Map.size s.entities

unfoldable pub clear : StateManager → StateManager
clear s = record s { entities = []; history = []; version = 0; snapshot = none }
