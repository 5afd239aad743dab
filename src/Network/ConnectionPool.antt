-- ===== src/Network/ConnectionPool.antt =====
-- `ConnectionPool` of src/network/connection-pool.ts. The connections are objects that the pool and its
-- clients share, and the lists of a host are arrays that a call of `acquire` holds while it waits: both
-- stand in stores, to which references lead. A socket is a flag that says whether it is open. Whether
-- and when a socket opens is an argument. The cleanup timer calls `cleanup`.
pub mod Acquire
pub mod Given
mod Tests
use sync_engine.Base.{
  ℕ, zero, suc, ◌+◌, ◌-◌, ◌==◌, String, Bool, true, false, not, ◌&&◌, Option, none, some, List, [],
  ◌∷◌, ◌++◌, leb, ltb, length, get_elem?, set_elem, or_else, if◌then◌else◌,
}
use sync_engine.Base.Map
use sync_engine.Base.Map.{Map}

pub record PooledConnection : Type 0 where
  pub id : String
  pub host : String
  pub port : ℕ
  pub created_at : ℕ
  pub last_used : ℕ
  pub in_use : Bool
  pub error_count : ℕ
  pub is_open : Bool

pub record ConnectionPool : Type 0 where
  pub objects : List PooledConnection
  pub arrays : List (List ℕ)
  pub connections : Map ℕ
  pub max_per_host : ℕ
  pub idle_timeout : ℕ
  pub max_errors : ℕ
  pub ticking : Bool

-- `${host}:${port}`
abbrev pub Key : Type 0
Key = String → ℕ → String

unfoldable pub create : ℕ → ℕ → ℕ → ConnectionPool
create max_per_host idle_timeout max_errors = record {
  objects = [];
  arrays = [];
  connections = [];
  max_per_host = max_per_host;
  idle_timeout = idle_timeout;
  max_errors = max_errors;
  ticking = false;
}

abbrev pub start : ConnectionPool → ConnectionPool
start s = record s { ticking = true }

abbrev pub array_of : ConnectionPool → ℕ → List ℕ
array_of s r = or_else (get_elem? s.arrays r) []

abbrev pub is_free : PooledConnection → Bool
is_free c = not c.in_use && c.is_open

unfoldable pub find_free : List PooledConnection → List ℕ → Option ℕ
find_free objects [] = none
find_free objects (ref ∷ refs) =
    let rest = find_free objects refs in
    elim (get_elem? objects ref) [ none ↦ rest | some c ↦ if is_free c then some ref else rest ]

-- A write to the object of a reference.
abbrev pub change : (PooledConnection → PooledConnection) → ConnectionPool → ℕ → ConnectionPool
change f s ref = elim (get_elem? s.objects ref) [
  | none ↦ s
  | some c ↦ record s { objects = set_elem s.objects ref (f c) }
]

abbrev pub taken : ℕ → PooledConnection → PooledConnection
taken now c = record c { in_use = true; last_used = now }

-- How a call of `acquire` goes on: it returns a connection or null, or waits for a new one with an array.
pub data Begun : Type 0 where
  given : ℕ → Begun
  exhausted : Begun
  connecting : ℕ → Begun

-- `this.connections.get(key) || []`
abbrev pub pool_of : ConnectionPool → String → ConnectionPool × ℕ
pool_of s key = elim (Map.get s.connections key) [
  | some r ↦ (s, r)
  | none ↦ (record s { arrays = s.arrays ++ [] ∷ [] }, length s.arrays)
]

-- What `createConnection` resolves to once its socket is open, given the time of that, or `none` if it
-- is rejected. The text is the one that it makes of the address and the time of the call.
unfoldable pub create_connection : String → String → ℕ → Option ℕ → Option PooledConnection
create_connection id host port none = none
create_connection id host port (some opened) = some (record {
  id = id;
  host = host;
  port = port;
  created_at = opened;
  last_used = opened;
  in_use = true;
  error_count = 0;
  is_open = true;
})

-- `acquire` from the array of the host to its await.
unfoldable pub begin_from : ConnectionPool → ℕ → ℕ → ConnectionPool × Begun
unfolding find_free
begin_from s r now = elim (find_free s.objects (array_of s r)) [
  | some ref ↦ (change (taken now) s ref, given ref)
  | none ↦ if leb s.max_per_host (length (array_of s r)) then (s, exhausted) else (s, connecting r)
]

-- `acquire` up to its await.
unfoldable pub begin_acquire : ConnectionPool → String → ℕ → ConnectionPool × Begun
unfolding begin_from
begin_acquire s key now = let (s', r) = pool_of s key in begin_from s' r now

-- `acquire` after it.
unfoldable pub finish_acquire :
    ConnectionPool → String → ℕ → Option PooledConnection → ConnectionPool × Option ℕ
finish_acquire s key r none = (s, none)
finish_acquire s key r (some c) = (
  record s {
    objects = s.objects ++ c ∷ [];
    arrays = set_elem s.arrays r (array_of s r ++ length s.objects ∷ []);
    connections = Map.set s.connections key r;
  },
  some (length s.objects),
)

-- `acquire` from what its first part has come to.
unfoldable pub go_on :
    String → Option PooledConnection → ConnectionPool × Begun → ConnectionPool × Option ℕ
unfolding finish_acquire
go_on key made (s, given ref) = (s, some ref)
go_on key made (s, exhausted) = (s, none)
go_on key made (s, connecting r) = finish_acquire s key r made

-- `acquire` of a host and a port, for the text and the time with which a connection opens, if it does.
unfoldable pub acquire :
    Key → ConnectionPool → String → ℕ → ℕ → String → Option ℕ → ConnectionPool × Option ℕ
unfolding begin_acquire go_on create_connection
acquire k s host port now id opened =
    let key = k host port in
    go_on key (create_connection id host port opened) (begin_acquire s key now)

abbrev pub release : ConnectionPool → ℕ → ℕ → ConnectionPool
release s ref now = change (λ c. record c { in_use = false; last_used = now }) s ref

abbrev pub close : ConnectionPool → ℕ → ConnectionPool
close s ref = change (λ c. record c { is_open = false }) s ref

-- `indexOf` and `splice` of one element.
unfoldable pub without : ℕ → List ℕ → List ℕ
without ref [] = []
without ref (r ∷ rs) = let rest = without ref rs in if r == ref then rs else r ∷ rest

unfoldable pub take_out : ConnectionPool → String → ℕ → ConnectionPool
unfolding without
take_out s key ref = elim (Map.get s.connections key) [
  | none ↦ s
  | some r ↦
      let left = without ref (array_of s r) in
      let s' : ConnectionPool = record s { arrays = set_elem s.arrays r left } in
      elim left [ [] ↦ record s' { connections = Map.delete s.connections key } | x ∷ xs ↦ s' ]
]

-- A socket that is not open stays as it is when it is closed.
unfoldable pub remove : Key → ConnectionPool → ℕ → ConnectionPool
unfolding take_out
remove k s ref = elim (get_elem? s.objects ref) [
  | none ↦ s
  | some c ↦ close (take_out s (k c.host c.port) ref) ref
]

-- What the filter of `cleanup` does with a connection: whether it stays, and whether it is closed.
unfoldable pub judged : ConnectionPool → ℕ → PooledConnection → Bool × Bool
judged s now c =
    if c.in_use
    then (true, false)
    else (if leb s.max_errors c.error_count
        then (false, true)
        else (if ltb (c.last_used + s.idle_timeout) now then (false, true) else (c.is_open, false)))

unfoldable pub filter_pool : ConnectionPool → ℕ → List ℕ → ConnectionPool × List ℕ
unfolding judged
filter_pool s now [] = (s, [])
filter_pool s now (ref ∷ refs) = elim (get_elem? s.objects ref) [
  | none ↦ filter_pool s now refs
  | some c ↦
      let (stays, closes) = judged s now c in
      let s' = if closes then close s ref else s in
      let later : ConnectionPool × List ℕ = filter_pool s' now refs in
      (later.0, if stays then ref ∷ later.1 else later.1)
]

-- The list that stays is a new array.
unfoldable pub store_active : ConnectionPool → String → List ℕ → ConnectionPool
store_active s key [] = record s { connections = Map.delete s.connections key }
store_active s key (r ∷ rs) = record s {
  arrays = s.arrays ++ (r ∷ rs) ∷ [];
  connections = Map.set s.connections key (length s.arrays);
}

unfoldable pub cleanup_each : ConnectionPool → ℕ → Map ℕ → ConnectionPool
unfolding filter_pool store_active
cleanup_each s now [] = s
cleanup_each s now ((key, r) ∷ m) =
    let (s', active) = filter_pool s now (array_of s r) in
    cleanup_each (store_active s' key active) now m

unfoldable pub cleanup : ConnectionPool → ℕ → ConnectionPool
unfolding cleanup_each
cleanup s now = cleanup_each s now s.connections

unfoldable pub close_all : ConnectionPool → List ℕ → ConnectionPool
close_all s [] = s
close_all s (ref ∷ refs) = close_all (close s ref) refs

unfoldable pub close_pools : ConnectionPool → Map ℕ → ConnectionPool
unfolding close_all
close_pools s [] = s
close_pools s ((key, r) ∷ m) = close_pools (close_all s (array_of s r)) m

unfoldable pub stop : ConnectionPool → ConnectionPool
unfolding close_pools
stop s = record (close_pools s s.connections) { connections = []; ticking = false }

unfoldable pub count_active : List PooledConnection → List ℕ → ℕ
count_active objects [] = 0
count_active objects (ref ∷ refs) =
    let rest = count_active objects refs in
    elim (get_elem? objects ref) [ none ↦ rest | some c ↦ if c.in_use then suc rest else rest ]

unfoldable pub total_of : ConnectionPool → Map ℕ → ℕ × ℕ
unfolding count_active
total_of s [] = (0, 0)
total_of s ((key, r) ∷ m) =
    let later : ℕ × ℕ = total_of s m in
    (length (array_of s r) + later.0, count_active s.objects (array_of s r) + later.1)

-- `getStats`: the connections, those in use, and the hosts.
unfoldable pub get_stats : ConnectionPool → ℕ × ℕ × ℕ
unfolding total_of
get_stats s =
    let (total, active) = total_of s s.connections in (total, active, Map.size s.connections)
