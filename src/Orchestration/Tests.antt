-- ===== src/Orchestration/Tests.antt =====
-- Runs of `GameServerManager` and `Matchmaker` of src/orchestration.
use sync_engine.Base.{
  ℕ, ◌≡◌, ◌≢◌, ◌<◌, ◌⊎◌, refl, String, Bool, true, false, some, none, List, [], ◌∷◌, ◌++◌, arith,
  length, filter, All,
}
use sync_engine.Base.Map
use sync_engine.Base.Sort
use sync_engine.Core.Value.{end}
use sync_engine.Core.Types.{
  GameServerInfo, running, full, starting, stopped, MatchInfo, MatchStatus,
}
use sync_engine.Orchestration.GameServerManager
use sync_engine.Orchestration.GameServerManager.{
  GameServerManager, GameServerConfig, Limits, get_server, add_player, remove_player, remove_server,
  fire, stop_server, run_server, admits,
}
use sync_engine.Orchestration.GameServerManager.Capacity
use sync_engine.Orchestration.GameServerManager.Capacity.{
  Op, add, fires, empty_manager, HasPlaces, IsSound, run, run-IsSound,
}
use sync_engine.Orchestration.Matchmaker
use sync_engine.Orchestration.Matchmaker.{
  Matchmaker, MatchRequest, MatchmakingConfig, default_config, enqueue, split_queue, rating, groups,
}
use sync_engine.Orchestration.Matchmaker.Round
use sync_engine.Orchestration.Matchmaker.Round.{Fresh, process_queue, create_match, still_active}
use sync_engine.Orchestration.Matchmaker.Grouping.{flatten, Fits, split_queue-cut}
use sync_engine.Orchestration.Matchmaker.Rounds.{
  waiting_for, OncePerPlayer, process_queue_leaves_few,
}
use sync_engine.Orchestration.Matchmaker.Placement.{candidates}

abbrev server : GameServerInfo
server = record {
  id = "s1";
  node_id = "n";
  name = "duel-1";
  map = "arena";
  mode = "duel";
  status = running;
  current_players = 1;
  max_players = 2;
  tick_rate = 60;
  uptime_ms = 0;
  avg_latency_ms = 0;
  metadata = end;
}

abbrev manager : GameServerManager
manager = record { servers = ("s1", server) ∷ []; node_id = "n"; pending = [] }

stored : get_server manager "s1" ≡ some server
unfolding Map.get
stored = refl

runs_on : server.status ≢ stopped
runs_on e = cc

abbrev limits : Limits
limits = record { max_servers = 3; max_players_per_server = 64; default_tick_rate = 60 }

abbrev duel : GameServerConfig
duel = record {
  name = "duel-1";
  map = "arena";
  mode = "duel";
  max_players = some 2;
  tick_rate = none;
  metadata = none;
}

-- A server for two is made and starts, and three players ask for a place.
abbrev ops : List Op
ops = Op.create limits duel "s1" ∷ fires (run_server "s1") ∷ add "s1" ∷ add "s1" ∷ add "s1" ∷ []

abbrev full_server : GameServerInfo
full_server = record server { current_players = 2; status = full }

filled : Map.get (run (empty_manager "n") ops).servers "s1" ≡ some full_server
unfolding run Capacity.step GameServerManager.create_server GameServerManager.new_server fire
    add_player GameServerManager.with_player Map.get Map.set
filled = refl

run-IsSound_example : IsSound full_server
run-IsSound_example = run-IsSound "n" ops "s1" full_server (ground arith) filled

abbrev request : String → ℕ → MatchRequest
request id skill = record {
  player_id = id;
  mode = "duel";
  map_ = none;
  preferred_region = none;
  skill_rating = some skill;
  metadata = none;
  requested_at = 5;
}

abbrev queue : List MatchRequest
queue = request "p" 30 ∷ request "q" 10 ∷ request "r" 20 ∷ []

abbrev pairs : MatchmakingConfig
pairs = record default_config { max_players = 2 }

abbrev matchmaker : Matchmaker
matchmaker = record {
  queue = ("duel", queue) ∷ [];
  matches = [];
  configs = [];
  servers = empty_manager "n";
  pending = [];
  made = 0;
}

abbrev fresh : ℕ → Fresh
fresh n = record { server_id = "s1"; server_name = "duel-auto"; match_id = "m1" }

once : OncePerPlayer queue
once = ground arith

best_two_wait :
    waiting_for (process_queue matchmaker limits "duel" queue pairs fresh 9).0 "duel"
    ≡ request "p" 30 ∷ []
unfolding process_queue groups Round.create_matches create_match Round.choose_server Round.emptiest
    Round.add_players Round.store_queue GameServerManager.create_server GameServerManager.new_server
    add_player GameServerManager.with_player Map.get Map.set Map.values Map.delete Sort.sort
    Sort.insert
best_two_wait = refl

split_queue-cut_example :
    let (matched, left) = split_queue pairs queue in
    Sort.IsSorted rating (flatten matched ++ left)
    × ((p : MatchRequest → Bool) → Sort.count p (flatten matched ++ left) ≡ Sort.count p queue)
    × All (Fits 2 2) matched
    × (length left < 2)
split_queue-cut_example = split_queue-cut pairs queue (omega arith) (omega arith)

process_queue_leaves_few_example :
    let done = process_queue matchmaker limits "duel" queue pairs fresh 9 in
    ((done.1 ≡ true) × (length (waiting_for done.0 "duel") < 2))
    ⊎ ((done.1 ≡ false) × (waiting_for done.0 "duel" ≡ filter (still_active pairs 9) queue))
process_queue_leaves_few_example =
    process_queue_leaves_few matchmaker limits "duel" queue pairs fresh 9 (omega arith)
      (omega arith) once

abbrev waiting_server : GameServerInfo
waiting_server = record server {
  name = "duel-auto";
  map = "default";
  status = starting;
  current_players = 0;
}

abbrev match : MatchInfo
match = record {
  id = "m1";
  server_id = "s1";
  mode = "duel";
  map = "default";
  status = MatchStatus.starting;
  players = "q" ∷ "r" ∷ [];
  max_players = 2;
  started_at = some 9;
  ended_at = none;
  duration = none;
  metadata = end;
}

-- A match of two players on a new server.
abbrev after : Matchmaker
after = record matchmaker {
  servers = record {
    servers = ("s1", waiting_server) ∷ [];
    node_id = "n";
    pending = run_server "s1" ∷ [];
  };
  matches = ("m1", match) ∷ [];
  pending = Matchmaker.start_match "m1" ∷ [];
  made = 1;
}

made_after :
    create_match matchmaker limits "duel" (request "q" 10 ∷ request "r" 20 ∷ []) pairs (fresh 0) 9
    ≡ some after
unfolding create_match Round.choose_server Round.emptiest Round.add_players
    GameServerManager.create_server GameServerManager.new_server add_player
    GameServerManager.with_player Map.get Map.set Map.values
made_after = refl

none_free : candidates matchmaker.servers "duel" ≡ []
unfolding Map.values
none_free = refl

-- A player who asked twice, and of whose requests one is matched, stays queued with both of them.
abbrev twice : List MatchRequest
twice = request "p" 10 ∷ request "q" 20 ∷ request "p" 30 ∷ []

asked_twice :
    (waiting_for (process_queue matchmaker limits "duel" twice pairs fresh 9).0 "duel"
      ≡ request "p" 10 ∷ request "p" 30 ∷ [])
    × (Map.get (process_queue matchmaker limits "duel" twice pairs fresh 9).0.matches "m1"
        ≡ some (record match { players = "p" ∷ "q" ∷ [] }))
unfolding process_queue groups Round.create_matches create_match Round.choose_server Round.emptiest
    Round.add_players Round.store_queue GameServerManager.create_server GameServerManager.new_server
    add_player GameServerManager.with_player Map.get Map.set Map.values Map.delete Sort.sort
    Sort.insert
asked_twice = (refl, refl)
