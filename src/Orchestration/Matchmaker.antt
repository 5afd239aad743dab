-- ===== src/Orchestration/Matchmaker.antt =====
-- `Matchmaker` of src/orchestration/matchmaker.ts, over the manager of the game servers: its state, the
-- queues, the cutting of a queue into groups, and the life of a match. The clock is an argument. A
-- callback of `setTimeout` is a task that waits in the state. A skill rating is a number from 0 on.
pub mod Round
pub mod Grouping
pub mod Rounds
pub mod Placement
use sync_engine.Base.{
  ℕ, zero, suc, ◌+◌, ◌-◌, ◌≤◌, String, Bool, true, false, not, ◌&&◌, ◌||◌, Option, none, some, List,
  [], ◌∷◌, ◌++◌, map, min, ltb, leb, ◌==◌, length, take, drop, filter, any, str_eq, if◌then◌else◌,
  or_else,
}
use sync_engine.Base.Map
use sync_engine.Base.Sort
use sync_engine.Base.Map.{Map}
use sync_engine.Core.Value.{Fields, end}
use sync_engine.Core.Types.{
  GameServerInfo, MatchInfo, MatchStatus, waiting, starting, in_progress, ending, completed,
  cancelled,
}
use sync_engine.Orchestration.GameServerManager
use sync_engine.Orchestration.GameServerManager.{GameServerManager, Limits}

pub record MatchRequest : Type 0 where
  pub player_id : String
  pub mode : String
  pub map_ : Option String
  pub preferred_region : Option String
  pub skill_rating : Option ℕ
  pub metadata : Option Fields
  pub requested_at : ℕ

pub record MatchmakingConfig : Type 0 where
  pub min_players : ℕ
  pub max_players : ℕ
  pub max_wait_time_ms : ℕ
  pub skill_range : ℕ
  pub expand_skill_over_time : Bool

abbrev pub default_config : MatchmakingConfig
default_config = record {
  min_players = 2;
  max_players = 10;
  max_wait_time_ms = 60000;
  skill_range = 200;
  expand_skill_over_time = true;
}

pub data Task : Type 0 where
  start_match complete_match : String → Task

pub record Matchmaker : Type 0 where
  pub queue : Map (List MatchRequest)
  pub matches : Map MatchInfo
  pub configs : Map MatchmakingConfig
  pub servers : GameServerManager
  pub pending : List Task
  pub made : ℕ

unfoldable pub set_mode_config : Matchmaker → String → MatchmakingConfig → Matchmaker
set_mode_config m mode cfg = record m { configs = Map.set m.configs mode cfg }

unfoldable pub enqueue : Matchmaker → MatchRequest → Matchmaker
enqueue m r = record m {
  queue = Map.set m.queue r.mode (or_else (Map.get m.queue r.mode) [] ++ r ∷ []);
}

abbrev pub has_player : String → List MatchRequest → Bool
has_player id = any (λ (r : MatchRequest). str_eq r.player_id id)

-- The number of places before the first request of the player.
unfoldable pub remove_first : String → List MatchRequest → List MatchRequest
remove_first id [] = []
remove_first id (r ∷ rs) = if str_eq r.player_id id then rs else r ∷ remove_first id rs

unfoldable pub dequeue : Matchmaker → String → String → Matchmaker × Bool
unfolding remove_first
dequeue m player_id mode = elim (Map.get m.queue mode) [
  | none ↦ (m, false)
  | some q ↦
      if has_player player_id q
      then (
        elim (remove_first player_id q) [
          | [] ↦ record m { queue = Map.delete m.queue mode }
          | r ∷ rs ↦ record m { queue = Map.set m.queue mode (r ∷ rs) }
        ],
        true,
      )
      else (m, false)
]

abbrev pub get_match : Matchmaker → String → Option MatchInfo
get_match m id = Map.get m.matches id

abbrev pub is_status : MatchStatus → MatchStatus → Bool
is_status starting starting = true
is_status in_progress in_progress = true
is_status completed completed = true
is_status _ _ = false

abbrev pub get_active_matches : Matchmaker → List MatchInfo
get_active_matches m =
    filter (λ (x : MatchInfo). is_status in_progress x.status || is_status starting x.status)
      (Map.values m.matches)

unfoldable pub total_queued : List (List MatchRequest) → ℕ
total_queued [] = 0
total_queued (q ∷ qs) = length q + total_queued qs

-- An absent mode and the empty one are both false in the source's test.
unfoldable pub get_queue_size : Matchmaker → Option String → ℕ
unfolding total_queued
get_queue_size m none = total_queued (Map.values m.queue)
get_queue_size m (some mode) =
    if str_eq mode ""
    then total_queued (Map.values m.queue)
    else length (or_else (Map.get m.queue mode) [])

abbrev pub rating : MatchRequest → ℕ
rating r = or_else r.skill_rating 0

-- The loop of `processQueue`: the groups that it makes a match of, and what is left in `sorted`. An
-- empty group is the last, since making a match of it throws. Each round before takes one request
-- at least, so one more round than requests is enough.
unfoldable pub groups : ℕ → ℕ → ℕ → List MatchRequest → List (List MatchRequest) × List MatchRequest
groups zero lo hi sorted = ([], sorted)
groups (suc fuel) lo hi sorted =
    let n = min hi (length sorted) in
    let group = take n sorted in
    let rest = drop n sorted in
    let later : List (List MatchRequest) × List MatchRequest = groups fuel lo hi rest in
    if leb lo (length sorted)
    then (if ltb (length group) lo
        then ([], rest ++ group)
        else (if n == 0 then (group ∷ [], rest) else (group ∷ later.0, later.1)))
    else ([], sorted)

abbrev pub split_queue :
    MatchmakingConfig → List MatchRequest → List (List MatchRequest) × List MatchRequest
split_queue cfg active =
    groups (suc (length active)) cfg.min_players cfg.max_players (Sort.sort rating active)

unfoldable pub remove_players : GameServerManager → String → List String → GameServerManager
remove_players g id [] = g
remove_players g id (p ∷ ps) = remove_players (GameServerManager.remove_player g id).0 id ps

unfoldable pub end_match : Matchmaker → String → ℕ → Matchmaker × Bool
unfolding remove_players
end_match m id now = elim (Map.get m.matches id) [
  | none ↦ (m, false)
  | some x ↦ (
    record m {
      servers = remove_players m.servers x.server_id x.players;
      matches = Map.set m.matches id (record x {
        status = ending;
        ended_at = some now;
        duration = some (now - or_else x.started_at now);
      });
      pending = m.pending ++ complete_match id ∷ [];
    },
    true,
  )
]

unfoldable pub fire : Matchmaker → Task → Matchmaker
fire m (start_match id) = elim (Map.get m.matches id) [
  | none ↦ m
  | some x ↦
      if is_status starting x.status
      then record m { matches = Map.set m.matches id (record x { status = in_progress }) }
      else m
]
fire m (complete_match id) = elim (Map.get m.matches id) [
  | none ↦ m
  | some x ↦ record m { matches = Map.set m.matches id (record x { status = completed }) }
]

abbrev pub get_all_matches : Matchmaker → List MatchInfo
get_all_matches m = Map.values m.matches

pub record Stats : Type 0 where
  pub queued_players : ℕ
  pub active_matches : ℕ
  pub completed_matches : ℕ
  pub modes : List String

unfoldable pub get_stats : Matchmaker → Stats
unfolding total_queued
get_stats m = record {
  queued_players = total_queued (Map.values m.queue);
  active_matches =
      length (filter (λ (x : MatchInfo). is_status in_progress x.status) (Map.values m.matches));
  completed_matches =
      length (filter (λ (x : MatchInfo). is_status completed x.status) (Map.values m.matches));
  modes = Map.keys m.queue;
}
