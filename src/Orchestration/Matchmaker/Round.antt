-- ===== src/Orchestration/Matchmaker/Round.antt =====
-- The rounds of `Matchmaker` of src/orchestration/matchmaker.ts: a match on a server, and what is
-- left of the queues. The limits of the configuration are arguments, and so are the identifiers of
-- new servers and matches: `ids` gives them for the number of matches made so far. A flag that is
-- false, or `none`, says that the call threw.
use sync_engine.Base.{
  ℕ, ◌+◌, ◌-◌, String, Bool, true, false, Option, none, some, List, [], ◌∷◌, ◌++◌, map, ltb, leb,
  filter, str_eq, if◌then◌else◌, or_else,
}
use sync_engine.Base.Map
use sync_engine.Base.Map.{Map}
use sync_engine.Core.Value.{end}
use sync_engine.Core.Types.{GameServerInfo, starting}
use sync_engine.Orchestration.GameServerManager
use sync_engine.Orchestration.GameServerManager.{GameServerManager, Limits}
use sync_engine.Orchestration.Matchmaker.{
  MatchRequest, MatchmakingConfig, default_config, Matchmaker, start_match, has_player, groups,
  split_queue,
}

-- The first of the servers with the fewest players.
unfoldable pub emptiest : GameServerInfo → List GameServerInfo → GameServerInfo
emptiest best [] = best
emptiest best (s ∷ ss) =
    emptiest (if ltb s.current_players best.current_players then s else best) ss

-- The new identifiers and the name that a call draws.
pub record Fresh : Type 0 where
  pub server_id : String
  pub server_name : String
  pub match_id : String

abbrev pub map_of : MatchRequest → String
map_of r = elim r.map_ [ none ↦ "default" | some s ↦ if str_eq s "" then "default" else s ]

-- The server that `createMatch` takes: an available one of the mode, or a new one.
unfoldable pub choose_server :
    GameServerManager
    → Limits
    → String
    → MatchRequest
    → MatchmakingConfig
    → Fresh
    → Option (GameServerManager × String)
unfolding emptiest
choose_server g limits mode first cfg fresh =
    elim (filter (λ (s : GameServerInfo). str_eq s.mode mode)
      (GameServerManager.get_available_servers g)) [
        | s ∷ ss ↦ some (g, (emptiest s ss).id)
        | [] ↦
            elim (GameServerManager.create_server g limits
              (record {
                name = fresh.server_name;
                map = map_of first;
                mode = mode;
                max_players = some cfg.max_players;
                tick_rate = none;
                metadata = none;
              })
              fresh.server_id) [ none ↦ none | some (g', server, _) ↦ some (g', server.id) ]
      ]

-- `addPlayer` once for each player; what it answers is not read.
unfoldable pub add_players : GameServerManager → String → List MatchRequest → GameServerManager
add_players g id [] = g
add_players g id (p ∷ ps) = add_players (GameServerManager.add_player g id).0 id ps

-- `none` is a throw: there is no first player, or no new server is allowed.
unfoldable pub create_match :
    Matchmaker
    → Limits
    → String
    → List MatchRequest
    → MatchmakingConfig
    → Fresh
    → ℕ
    → Option Matchmaker
unfolding choose_server add_players
create_match m limits mode [] cfg fresh now = none
create_match m limits mode (p ∷ ps) cfg fresh now =
    elim (choose_server m.servers limits mode p cfg fresh) [
      | none ↦ none
      | some (g, server_id) ↦ some (record m {
        servers = add_players g server_id (p ∷ ps);
        matches = Map.set m.matches fresh.match_id (record {
          id = fresh.match_id;
          server_id = server_id;
          mode = mode;
          map = map_of p;
          status = starting;
          players = map (λ (r : MatchRequest). r.player_id) (p ∷ ps);
          max_players = cfg.max_players;
          started_at = some now;
          ended_at = none;
          duration = none;
          metadata = end;
        });
        pending = m.pending ++ start_match fresh.match_id ∷ [];
        made = m.made + 1;
      })
    ]

-- One match for each group, up to a throw; the flag says that there was none.
unfoldable pub create_matches :
    Matchmaker
    → Limits
    → String
    → List (List MatchRequest)
    → MatchmakingConfig
    → (ℕ → Fresh)
    → ℕ
    → Matchmaker × Bool
unfolding create_match
create_matches m limits mode [] cfg ids now = (m, true)
create_matches m limits mode (g ∷ gs) cfg ids now =
    elim (create_match m limits mode g cfg (ids m.made) now) [
      | none ↦ (m, false)
      | some m' ↦ create_matches m' limits mode gs cfg ids now
    ]

abbrev pub waited_too_long : MatchmakingConfig → ℕ → MatchRequest → Bool
waited_too_long cfg now r = ltb cfg.max_wait_time_ms (now - r.requested_at)

abbrev pub still_active : MatchmakingConfig → ℕ → MatchRequest → Bool
still_active cfg now r = leb (now - r.requested_at) cfg.max_wait_time_ms

unfoldable pub store_queue : Matchmaker → String → List MatchRequest → Matchmaker
store_queue m mode [] = record m { queue = Map.delete m.queue mode }
store_queue m mode (r ∷ rs) = record m { queue = Map.set m.queue mode (r ∷ rs) }

-- The requests of the queue that stay: those of a player who is left over.
abbrev pub left_over : List MatchRequest → List MatchRequest → List MatchRequest
left_over active remaining = filter (λ (r : MatchRequest). has_player r.player_id remaining) active

-- `processQueue`, with the players whose requests have timed out; the flag is false if it threw. Then
-- the queue has lost the requests that timed out, and no others.
unfoldable pub process_queue :
    Matchmaker
    → Limits
    → String
    → List MatchRequest
    → MatchmakingConfig
    → (ℕ → Fresh)
    → ℕ
    → Matchmaker × Bool × List String
unfolding groups create_matches store_queue
process_queue m limits mode queue cfg ids now =
    let expired =
      map (λ (r : MatchRequest). r.player_id) (filter (waited_too_long cfg now) queue) in
    let active = filter (still_active cfg now) queue in
    let m1 : Matchmaker = store_queue m mode active in
    elim active [
      | [] ↦ (m1, true, expired)
      | r ∷ rs ↦
          let split = split_queue cfg (r ∷ rs) in
          let done = create_matches m1 limits mode split.0 cfg ids now in
          (
            if done.1 then store_queue done.0 mode (left_over (r ∷ rs) split.1) else done.0,
            done.1,
            expired,
          )
    ]

-- `processQueues`: a throw ends the round for the modes after it too.
unfoldable pub process_entries :
    Matchmaker → Limits → Map (List MatchRequest) → (ℕ → Fresh) → ℕ → Matchmaker × Bool
process_entries m limits [] ids now = (m, true)
process_entries m limits ((mode, q) ∷ rest) ids now =
    let cfg = or_else (Map.get m.configs mode) default_config in
    let done = process_queue m limits mode q cfg ids now in
    elim done.1 [ true ↦ process_entries done.0 limits rest ids now | false ↦ (done.0, false) ]

unfoldable pub process_queues : Matchmaker → Limits → (ℕ → Fresh) → ℕ → Matchmaker × Bool
unfolding process_entries process_queue
process_queues m limits ids now = process_entries m limits m.queue ids now
