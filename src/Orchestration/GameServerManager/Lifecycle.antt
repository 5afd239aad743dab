-- ===== src/Orchestration/GameServerManager/Lifecycle.antt =====
-- What the calls that move players and remove servers do, on every branch.
use sync_engine.Base.{
  ◌+◌, ◌≤◌, ◌<◌, ◌≡◌, ◌≢◌, refl, ap, ◌∙◌, ◌⊎◌, inl, inr, String, true, false, none, some, [], ◌∷◌,
  ◌++◌, ◌==◌, arith, Option-cases, Bool-cases, if◌then◌else◌, eq_iff,
}
use sync_engine.Base.Map
use sync_engine.Base.Map.Laws.{get-set, get-set_self, get-delete}
use sync_engine.Core.Types.{GameServerInfo, ServerStatus, running, full, stopped}
use sync_engine.Orchestration.GameServerManager.{
  GameServerManager, stop_server, stop_server_op, remove_server, fire, with_player, without_player,
  add_player, remove_player, admits, is_running, is_stopped, get_server,
}

runs : (st : ServerStatus) → is_running st ≡ true → st ≡ running
runs running e = refl
runs _ e = cc

admits-Runs :
    (s : GameServerInfo)
    → admits s ≡ true
    → (s.status ≡ running) × (s.current_players < s.max_players)
admits-Runs s e = (runs s.status (ground arith), ground arith)

with_player_lem :
    (s : GameServerInfo)
    → (s.status ≡ running) × (s.current_players < s.max_players)
    → with_player s ≡ record s {
      current_players = s.current_players + 1;
      status = if s.current_players + 1 == s.max_players then full else running;
    }
unfolding with_player
with_player_lem s h = ground (arith, h)

-- `addPlayer` answers true exactly for a server that runs and has a free place; then that server
-- gains the player and is marked full when the last place is taken, and the others stay. Otherwise
-- nothing changes and nothing is emitted.
pub add_player_effects :
    (m : GameServerManager) (id : String)
    → let (m', added, events) = add_player m id in
      ((added ≡ true)
        × ((s : GameServerInfo) × (get_server m id ≡ some s)
            × (s.status ≡ running)
            × (s.current_players < s.max_players)
            × (get_server m' id
                ≡ some (record s {
                  current_players = s.current_players + 1;
                  status = if s.current_players + 1 == s.max_players then full else running;
                })))
        × ((j : String) → id ≢ j → get_server m' j ≡ get_server m j))
      ⊎ ((added ≡ false)
          × (m' ≡ m)
          × (events ≡ [])
          × ((s : GameServerInfo)
              → get_server m id ≡ some s
              → (s.status ≢ running) ⊎ (s.max_players ≤ s.current_players)))
unfolding add_player
add_player_effects m id = elim (Option-cases (Map.get m.servers id)) [
  | inl e ↦ rw (e, add_player) (inr (refl, refl, refl, λ s p. cc))
  | inr (s, e) ↦
      rw (e, add_player)
        (elim (Bool-cases (admits s)) [
          | inl t ↦
              let ok = admits-Runs s t in
              rw t (
                inl (
                  refl,
                  (
                    s,
                    refl,
                    ok.0,
                    ok.1,
                    get-set_self m.servers id (with_player s) ∙ ap some (with_player_lem s ok),
                  ),
                  λ j ne. ground (arith, eq_iff id j, get-set m.servers id j (with_player s)),
                ))
          | inr f ↦ rw f (inr (refl, refl, refl, λ x p. ground arith))
        ])
]

undone :
    (s : GameServerInfo)
    → (s.status ≡ running) × (s.current_players < s.max_players)
    → without_player (with_player s) ≡ s
unfolding with_player without_player
undone s h = ground (arith, h)

-- For a running server with a free place, taking out the player that was just added gives the
-- server back as it was.
pub remove_player-add_player :
    (m : GameServerManager) (id : String) (s : GameServerInfo)
    → get_server m id ≡ some s
    → admits s ≡ true
    → get_server (remove_player (add_player m id).0 id).0 id ≡ some s
unfolding remove_player
remove_player-add_player m id s e h =
    let m1 = (add_player m id).0 in
    let added : Map.get m1.servers id ≡ some (with_player s) =
      unfold add_player in rw (e, add_player, h) (get-set_self m.servers id (with_player s)) in
    rw (added, remove_player)
      (get-set_self m1.servers id (without_player (with_player s))
        ∙ ap some (undone s (admits-Runs s h)))

not_stopped : (st : ServerStatus) → st ≢ stopped → is_stopped st ≡ false
not_stopped stopped ne = absurd (ne refl)
not_stopped _ ne = refl

-- A server that is removed before it has stopped is gone at once, with its stop left to a timer;
-- when that fires, nothing changes and nothing is emitted.
pub removed_server_never_stops :
    (m : GameServerManager) (id : String) (s : GameServerInfo)
    → get_server m id ≡ some s
    → s.status ≢ stopped
    → let m' = (remove_server m id).0 in
      (get_server m' id ≡ none)
      × (m'.pending ≡ m.pending ++ stop_server id ∷ [])
      × (fire m' (stop_server id) ≡ (m', []))
unfolding remove_server fire
removed_server_never_stops m id s e ne =
    let gone = get-delete (stop_server_op m id).0.servers id id in
    let live : is_stopped s.status ≡ false = not_stopped s.status ne in
    (
      rw (e, remove_server, live) (ground (arith, gone, eq_iff id id)),
      rw (e, remove_server, live) (unfold stop_server_op in rw (e, stop_server_op) refl),
      rw (e, remove_server, live) (ground (arith, gone, eq_iff id id)),
    )
