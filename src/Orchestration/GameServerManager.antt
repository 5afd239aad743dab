-- ===== src/Orchestration/GameServerManager.antt =====
-- `GameServerManager` of src/orchestration/game-server-manager.ts. A new identifier and the values of
-- the configuration are arguments. A callback of `setTimeout` is a task that waits in the state until
-- it is fired. `none` from `create_server` is the error that it throws. The running average of the
-- latencies is a parameter of `update_server_latency`.
pub mod Capacity
pub mod Lifecycle
use sync_engine.Base.{
  ℕ, ◌+◌, ◌-◌, String, Bool, true, false, not, ◌&&◌, ◌||◌, Option, none, some, List, [], ◌∷◌, ◌++◌,
  ltb, leb, ◌==◌, length, filter, str_eq, if◌then◌else◌, or_else,
}
use sync_engine.Base.Map
use sync_engine.Base.Map.{Map}
use sync_engine.Core.Value.{Fields, end}
use sync_engine.Core.Types.{
  GameServerInfo, ServerStatus, starting, running, full, draining, stopped, error,
}

pub record GameServerConfig : Type 0 where
  pub name : String
  pub map : String
  pub mode : String
  pub max_players : Option ℕ
  pub tick_rate : Option ℕ
  pub metadata : Option Fields

-- `config.gameServer`
pub record Limits : Type 0 where
  pub max_servers : ℕ
  pub max_players_per_server : ℕ
  pub default_tick_rate : ℕ

pub data Task : Type 0 where
  run_server stop_server : String → Task

pub data Event : Type 0 where
  server_created server_started server_draining server_stopped server_error : GameServerInfo → Event
  server_removed : String → Event
  player_joined player_left : String → ℕ → Event

pub record GameServerManager : Type 0 where
  pub servers : Map GameServerInfo
  pub node_id : String
  pub pending : List Task

abbrev pub is_starting : ServerStatus → Bool
is_starting starting = true
is_starting _ = false

abbrev pub is_running : ServerStatus → Bool
is_running running = true
is_running _ = false

abbrev pub is_full : ServerStatus → Bool
is_full full = true
is_full _ = false

abbrev pub is_stopped : ServerStatus → Bool
is_stopped stopped = true
is_stopped _ = false

abbrev pub is_error : ServerStatus → Bool
is_error error = true
is_error _ = false

-- `n || d`
abbrev pub or_default : Option ℕ → ℕ → ℕ
or_default none d = d
or_default (some n) d = if n == 0 then d else n

-- The object of a new server.
unfoldable pub new_server : GameServerManager → Limits → GameServerConfig → String → GameServerInfo
new_server m limits cfg id = record {
  id = id;
  node_id = m.node_id;
  name = cfg.name;
  map = cfg.map;
  mode = cfg.mode;
  status = starting;
  current_players = 0;
  max_players = or_default cfg.max_players limits.max_players_per_server;
  tick_rate = or_default cfg.tick_rate limits.default_tick_rate;
  uptime_ms = 0;
  avg_latency_ms = 0;
  metadata = or_else cfg.metadata end;
}

unfoldable pub create_server :
    GameServerManager
    → Limits
    → GameServerConfig
    → String
    → Option (GameServerManager × GameServerInfo × List Event)
unfolding new_server
create_server m limits cfg id =
    let server = new_server m limits cfg id in
    if leb limits.max_servers (Map.size m.servers)
    then none
    else some (
      record m { servers = Map.set m.servers id server; pending = m.pending ++ run_server id ∷ [] },
      server,
      server_created server ∷ [],
    )

unfoldable pub stop_server_op : GameServerManager → String → GameServerManager × Bool × List Event
stop_server_op m id = elim (Map.get m.servers id) [
  | none ↦ (m, false, [])
  | some s ↦
      let s' : GameServerInfo = record s { status = draining } in
      (
        record m { servers = Map.set m.servers id s'; pending = m.pending ++ stop_server id ∷ [] },
        true,
        server_draining s' ∷ [],
      )
]

unfoldable pub remove_server : GameServerManager → String → GameServerManager × Bool × List Event
unfolding stop_server_op
remove_server m id = elim (Map.get m.servers id) [
  | none ↦ (m, false, [])
  | some s ↦
      let halted = stop_server_op m id in
      let m' = if is_stopped s.status then m else halted.0 in
      let events = if is_stopped s.status then [] else halted.2 in
      (record m' { servers = Map.delete m'.servers id }, true, events ++ server_removed id ∷ [])
]

-- The callbacks of the two timers.
unfoldable pub fire : GameServerManager → Task → GameServerManager × List Event
fire m (run_server id) = elim (Map.get m.servers id) [
  | none ↦ (m, [])
  | some s ↦
      let s' : GameServerInfo = record s { status = running } in
      if is_starting s.status
      then (record m { servers = Map.set m.servers id s' }, server_started s' ∷ [])
      else (m, [])
]
fire m (stop_server id) = elim (Map.get m.servers id) [
  | none ↦ (m, [])
  | some s ↦
      let s' : GameServerInfo = record s { status = stopped } in
      (record m { servers = Map.set m.servers id s' }, server_stopped s' ∷ [])
]

abbrev pub get_server : GameServerManager → String → Option GameServerInfo
get_server m id = Map.get m.servers id

abbrev pub get_all_servers : GameServerManager → List GameServerInfo
get_all_servers m = Map.values m.servers

abbrev pub get_running_servers : GameServerManager → List GameServerInfo
get_running_servers m = filter (λ (s : GameServerInfo). is_running s.status) (Map.values m.servers)

abbrev pub get_available_servers : GameServerManager → List GameServerInfo
get_available_servers m =
    filter (λ (s : GameServerInfo). ltb s.current_players s.max_players) (get_running_servers m)

abbrev pub get_servers_by_mode : GameServerManager → String → List GameServerInfo
get_servers_by_mode m mode =
    filter (λ (s : GameServerInfo). str_eq s.mode mode) (get_running_servers m)

abbrev pub get_servers_by_map : GameServerManager → String → List GameServerInfo
get_servers_by_map m map = filter (λ (s : GameServerInfo). str_eq s.map map) (get_running_servers m)

-- The server after one more player, and after one less.
unfoldable pub with_player : GameServerInfo → GameServerInfo
with_player s = record s {
  current_players = s.current_players + 1;
  status = if leb s.max_players (s.current_players + 1) then full else s.status;
}

unfoldable pub without_player : GameServerInfo → GameServerInfo
without_player s = record s {
  current_players = s.current_players - 1;
  status =
      if is_full s.status && ltb (s.current_players - 1) s.max_players then running else s.status;
}

abbrev pub admits : GameServerInfo → Bool
admits s = is_running s.status && ltb s.current_players s.max_players

unfoldable pub add_player : GameServerManager → String → GameServerManager × Bool × List Event
unfolding with_player
add_player m id = elim (Map.get m.servers id) [
  | none ↦ (m, false, [])
  | some s ↦
      if admits s
      then (
        record m { servers = Map.set m.servers id (with_player s) },
        true,
        player_joined id (s.current_players + 1) ∷ [],
      )
      else (m, false, [])
]

unfoldable pub remove_player : GameServerManager → String → GameServerManager × Bool × List Event
unfolding without_player
remove_player m id = elim (Map.get m.servers id) [
  | none ↦ (m, false, [])
  | some s ↦ (
    record m { servers = Map.set m.servers id (without_player s) },
    true,
    player_left id (s.current_players - 1) ∷ [],
  )
]

-- `average old new` is the source's `old * 0.8 + new * 0.2`.
unfoldable pub update_server_latency :
    (ℕ → ℕ → ℕ) → GameServerManager → String → ℕ → GameServerManager
update_server_latency average m id latency = elim (Map.get m.servers id) [
  | none ↦ m
  | some s ↦ record m {
    servers = Map.set m.servers id (record s { avg_latency_ms = average s.avg_latency_ms latency });
  }
]

unfoldable pub aged : String → GameServerInfo → GameServerInfo
aged id s =
    if is_running s.status || is_full s.status
    then record s { uptime_ms = s.uptime_ms + 10000 }
    else s

abbrev pub error_events : List GameServerInfo → List Event
error_events [] = []
error_events (s ∷ ss) =
    if is_error s.status then server_error s ∷ error_events ss else error_events ss

unfoldable pub check_server_health : GameServerManager → GameServerManager × List Event
unfolding aged
check_server_health m =
    let servers = Map.map_values aged m.servers in
    (record m { servers = servers }, error_events (Map.values servers))

abbrev pub halted : String → GameServerInfo → GameServerInfo
halted id s = record s { status = stopped }

unfoldable pub stop : GameServerManager → GameServerManager
stop m = record m { servers = Map.map_values halted m.servers }

pub record Stats : Type 0 where
  pub total : ℕ
  pub running_ : ℕ
  pub full_ : ℕ
  pub stopped_ : ℕ
  pub total_players : ℕ

unfoldable pub count_players : List GameServerInfo → ℕ
count_players [] = 0
count_players (s ∷ ss) = s.current_players + count_players ss

unfoldable pub get_stats : GameServerManager → Stats
unfolding count_players
get_stats m =
    let all = Map.values m.servers in
    record {
      total = Map.size m.servers;
      running_ = length (filter (λ (s : GameServerInfo). is_running s.status) all);
      full_ = length (filter (λ (s : GameServerInfo). is_full s.status) all);
      stopped_ = length (filter (λ (s : GameServerInfo). is_stopped s.status) all);
      total_players = count_players all;
    }
