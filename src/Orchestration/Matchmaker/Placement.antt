-- ===== src/Orchestration/Matchmaker/Placement.antt =====
-- The server that `createMatch` of src/orchestration/matchmaker.ts puts the players on.
use sync_engine.Base.{
  ℕ, ◌+◌, ◌≡◌, refl, subst, inl, inr, String, none, some, List, [], ◌∷◌, ◌++◌, map, filter, leb,
  arith, Bool-cases, str_eq, if◌then◌else◌,
}
use sync_engine.Base.Map
use sync_engine.Base.Map.Laws.{get-set_self}
use sync_engine.Core.Value.{end}
use sync_engine.Core.Types.{GameServerInfo, MatchInfo, starting}
use sync_engine.Orchestration.GameServerManager
use sync_engine.Orchestration.GameServerManager.{
  GameServerManager, Limits, run_server, get_available_servers,
}
use sync_engine.Orchestration.Matchmaker.{Matchmaker, MatchRequest, MatchmakingConfig, start_match}
use sync_engine.Orchestration.Matchmaker.Round.{
  Fresh, choose_server, add_players, create_match, map_of,
}

-- The servers that a match of the mode can be put on.
abbrev pub candidates : GameServerManager → String → List GameServerInfo
candidates g mode = filter (λ (s : GameServerInfo). str_eq s.mode mode) (get_available_servers g)

-- A server that is not running takes no players.
idle_add_player :
    (g : GameServerManager) (id : String) (s : GameServerInfo)
    → Map.get g.servers id ≡ some s
    → s.status ≡ starting
    → (GameServerManager.add_player g id).0 ≡ g
unfolding GameServerManager.add_player
idle_add_player g id s e st = rw (e, GameServerManager.add_player, st) refl

idle_add_players :
    (g : GameServerManager) (id : String) (s : GameServerInfo)
    → Map.get g.servers id ≡ some s
    → s.status ≡ starting
    → (ps : List MatchRequest) → add_players g id ps ≡ g
unfolding add_players
idle_add_players g id s e st [] = refl
idle_add_players g id s e st (p ∷ ps) =
    rw (idle_add_player g id s e st) (idle_add_players g id s e st ps)

-- The match, and the manager of the servers, that a new server leads to.
abbrev new_match :
    String → MatchRequest → List MatchRequest → MatchmakingConfig → Fresh → ℕ → MatchInfo
new_match mode p ps cfg fresh now = record {
  id = fresh.match_id;
  server_id = fresh.server_id;
  mode = mode;
  map = map_of p;
  status = starting;
  players = map (λ (r : MatchRequest). r.player_id) (p ∷ ps);
  max_players = cfg.max_players;
  started_at = some now;
  ended_at = none;
  duration = none;
  metadata = end;
}

abbrev server_for :
    GameServerManager → Limits → String → MatchRequest → MatchmakingConfig → Fresh → GameServerInfo
server_for g limits mode p cfg fresh =
    GameServerManager.new_server g limits
      (record {
        name = fresh.server_name;
        map = map_of p;
        mode = mode;
        max_players = some cfg.max_players;
        tick_rate = none;
        metadata = none;
      })
      fresh.server_id

abbrev with_server : GameServerManager → GameServerInfo → GameServerManager
with_server g s = record g {
  servers = Map.set g.servers s.id s;
  pending = g.pending ++ run_server s.id ∷ [];
}

placed :
    (m : Matchmaker) (limits : Limits) (mode : String) (p : MatchRequest) (ps : List MatchRequest)
    (cfg : MatchmakingConfig) (fresh : Fresh) (now : ℕ)
    → candidates m.servers mode ≡ []
    → let s = server_for m.servers limits mode p cfg fresh in
      create_match m limits mode (p ∷ ps) cfg fresh now ≡ (
        if leb limits.max_servers (Map.size m.servers.servers)
        then none
        else some (record m {
          servers = add_players (with_server m.servers s) fresh.server_id (p ∷ ps);
          matches = Map.set m.matches fresh.match_id (new_match mode p ps cfg fresh now);
          pending = m.pending ++ start_match fresh.match_id ∷ [];
          made = m.made + 1;
        }))
unfolding create_match choose_server GameServerManager.create_server GameServerManager.new_server
placed m limits mode p ps cfg fresh now e =
    elim (Bool-cases (leb limits.max_servers (Map.size m.servers.servers))) [
      | inl t ↦ rw (e, t, create_match, choose_server, GameServerManager.create_server) refl
      | inr f ↦ rw (e, f, create_match, choose_server, GameServerManager.create_server) refl
    ]

-- The match stands on the new server and lists the players, and that server counts none.
abbrev pub IsPlacedFresh : Fresh → List String → Matchmaker → Type 0
IsPlacedFresh fresh players m =
    ((x : MatchInfo) × (Map.get m.matches fresh.match_id ≡ some x)
      × (x.server_id ≡ fresh.server_id)
      × (x.players ≡ players))
    × ((s : GameServerInfo) × (Map.get m.servers.servers fresh.server_id ≡ some s)
        × (s.status ≡ starting)
        × (s.current_players ≡ 0))

-- When no running server of the mode has a free place, and a match can be made, its server is a new one that
-- counts no player, although the match lists all of them: `addPlayer` refuses a server that is
-- still starting, and its answer is not read.
pub create_match-fresh_server :
    (m m' : Matchmaker) (limits : Limits) (mode : String) (p : MatchRequest)
    (ps : List MatchRequest) (cfg : MatchmakingConfig) (fresh : Fresh) (now : ℕ)
    → candidates m.servers mode ≡ []
    → create_match m limits mode (p ∷ ps) cfg fresh now ≡ some m'
    → IsPlacedFresh fresh (map (λ (r : MatchRequest). r.player_id) (p ∷ ps)) m'
unfolding GameServerManager.new_server
create_match-fresh_server m m' limits mode p ps cfg fresh now none_free made =
    let g = m.servers in
    let s = server_for g limits mode p cfg fresh in
    let step = placed m limits mode p ps cfg fresh now none_free in
    let id = fresh.server_id in
    let stored = get-set_self g.servers id s in
    let idle = idle_add_players (with_server g s) id s stored refl (p ∷ ps) in
    elim (Bool-cases (leb limits.max_servers (Map.size g.servers))) [
      | inl t ↦ absurd (ground arith)
      | inr f ↦
          let match = new_match mode p ps cfg fresh now in
          let made_it : Matchmaker = record m {
            servers = add_players (with_server g s) id (p ∷ ps);
            matches = Map.set m.matches fresh.match_id match;
            pending = m.pending ++ start_match fresh.match_id ∷ [];
            made = m.made + 1;
          } in
          let same : made_it ≡ m' = cc in
          subst (IsPlacedFresh fresh (map (λ (r : MatchRequest). r.player_id) (p ∷ ps))) same (
            (match, get-set_self m.matches fresh.match_id match, refl, refl),
            (s, rw idle stored, refl, refl),
          )
    ]
