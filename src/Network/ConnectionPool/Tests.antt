-- ===== src/Network/ConnectionPool/Tests.antt =====
-- Runs of src/network/connection-pool.ts.
use sync_engine.Base.{◌≡◌, refl, String, true, none, some, [], ◌∷◌, arith}
use sync_engine.Base.Map
use sync_engine.Network.ConnectionPool.{
  ConnectionPool, PooledConnection, array_of, connecting, Key, go_on, create_connection, begin_from,
  begin_acquire, finish_acquire, acquire, release, find_free, create,
}
use sync_engine.Network.ConnectionPool.Acquire.{with_array, begin_acquire_raced}
use sync_engine.Network.ConnectionPool.Given.{held_refs, IsGiven, acquire-IsGiven}

abbrev connection : String → PooledConnection
connection id = record {
  id = id;
  host = "h";
  port = 80;
  created_at = 5;
  last_used = 5;
  in_use = true;
  error_count = 0;
  is_open = true;
}

abbrev pool : ConnectionPool
pool = create 1 100 3

no_pool : Map.get pool.connections "h:80" ≡ none
unfolding create Map.get
no_pool = refl

begin_acquire_raced_example :
    let s₁ = with_array pool in
    let s₂ = with_array s₁ in
    let s₃ = (finish_acquire s₂ "h:80" 0 (some (connection "c"))).0 in
    let (s₄, answer) = finish_acquire s₃ "h:80" 1 (some (connection "d")) in
    (begin_acquire pool "h:80" 5 ≡ (s₁, connecting 0))
    × (begin_acquire s₁ "h:80" 6 ≡ (s₂, connecting 1))
    × (Map.get s₃.connections "h:80" ≡ some 0)
    × (array_of s₃ 0 ≡ 0 ∷ [])
    × (answer ≡ some 1)
    × (Map.get s₄.connections "h:80" ≡ some 1)
    × (array_of s₄ 1 ≡ 1 ∷ [])
unfolding create finish_acquire
begin_acquire_raced_example =
    begin_acquire_raced pool "h:80" 5 6 (connection "c") (connection "d") no_pool (omega arith)

abbrev key_of : Key
key_of host port = "h:80"

-- A connection is opened and given back.
abbrev idle : ConnectionPool
idle = release (acquire key_of pool "h" 80 5 "c" (some 6)).0 0 7

-- The second call gets the connection of the first.
acquired_again : (acquire key_of idle "h" 80 9 "d" none).1 ≡ some 0
unfolding create acquire begin_acquire begin_from go_on create_connection finish_acquire find_free
    Map.get Map.set
acquired_again = refl

acquire-IsGiven_example :
    IsGiven "d" "h" 80 9 none idle.max_per_host
      (held_refs idle (key_of "h" 80))
      idle.objects
      (acquire key_of idle "h" 80 9 "d" none).0.objects
      0
acquire-IsGiven_example = acquire-IsGiven key_of idle "h" 80 9 "d" none 0 acquired_again
