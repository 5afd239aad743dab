-- ===== src/Orchestration/GameServerManager/Capacity.antt =====
-- No server ever holds more players than it has places, and none says that it has room when full.
use sync_engine.Base.{
  ℕ, ◌+◌, ◌-◌, ◌≤◌, ◌<◌, ◌≡◌, refl, inl, inr, String, true, ◌&&◌, ◌||◌, Option, none, some, List,
  [], ◌∷◌, ltb, leb, arith, All, Option-cases, Bool-cases, if◌then◌else◌,
}
use sync_engine.Base.Map
use sync_engine.Base.Map.Laws.{All-get, All-set, All-delete, All-map_values}
use sync_engine.Core.Types.{GameServerInfo, ServerStatus, starting, running, full}
use sync_engine.Orchestration.GameServerManager.{
  GameServerManager, GameServerConfig, Limits, Task, run_server, stop_server, create_server,
  stop_server_op, remove_server, fire, add_player, remove_player, check_server_health, stop, aged,
  halted, is_running, is_full, is_stopped, is_starting, admits, Event,
}

-- By its status: a server that runs has a free place, one that is marked full has none, one that is
-- starting has no player yet, and none has more players than places.
abbrev pub Fits : ServerStatus → ℕ → ℕ → Type 0
Fits running players places = players < places
Fits full players places = (players ≡ places) × (0 < places)
Fits starting players places = (players ≡ 0) × (0 < places)
Fits _ players places = (players ≤ places) × (0 < places)

abbrev pub IsSound : GameServerInfo → Type 0
IsSound s = Fits s.status s.current_players s.max_players

Fits-le : (st : ServerStatus) (n k : ℕ) → Fits st n k → (n ≤ k) × (0 < k)
Fits-le running n k h = omega arith
Fits-le full n k h = omega arith
Fits-le starting n k h = omega arith
Fits-le _ n k h = omega arith

with_player-Fits :
    (st : ServerStatus) (n k : ℕ)
    → is_running st ≡ true
    → Fits st n k
    → Fits (if leb k (n + 1) then full else st) (n + 1) k
with_player-Fits running n k e h = elim (Bool-cases (leb k (n + 1))) [
  | inl t ↦ rw t (ground arith)
  | inr f ↦ rw f (ground arith)
]
with_player-Fits _ n k e h = cc

without_player-Fits :
    (st : ServerStatus) (n k : ℕ)
    → Fits st n k
    → Fits (if is_full st && ltb (n - 1) k then running else st) (n - 1) k
without_player-Fits full n k h = elim (Bool-cases (ltb (n - 1) k)) [
  | inl t ↦ rw t (ground arith)
  | inr f ↦ rw f (ground arith)
]
without_player-Fits running n k h = omega arith
without_player-Fits starting n k h = omega arith
without_player-Fits _ n k h = omega arith

aged-IsSound : (id : String) (s : GameServerInfo) → IsSound s → IsSound (aged id s)
unfolding aged
aged-IsSound id s v = elim (Bool-cases (is_running s.status || is_full s.status)) [
  | inl e ↦ rw e v
  | inr e ↦ rw e v
]

pub record IsValid (m : GameServerManager) : Type 0 where
  pub sound : All IsSound (Map.values m.servers)

-- Every call of the manager, and the firing of any task.
pub data Op : Type 0 where
  create : Limits → GameServerConfig → String → Op
  stop_one remove_one add remove : String → Op
  fires : Task → Op
  check_health stop_all : Op

-- A call that throws leaves the manager as it was.
abbrev or_same :
    GameServerManager → Option (GameServerManager × GameServerInfo × List Event) → GameServerManager
or_same m none = m
or_same m (some (m', _, _)) = m'

unfoldable pub step : GameServerManager → Op → GameServerManager
step m (create limits cfg id) = or_same m (create_server m limits cfg id)
step m (stop_one id) = (stop_server_op m id).0
step m (remove_one id) = (remove_server m id).0
step m (add id) = (add_player m id).0
step m (remove id) = (remove_player m id).0
step m (fires t) = (fire m t).0
step m check_health = (check_server_health m).0
step m stop_all = stop m

stop_server_op-IsValid :
    (m : GameServerManager) (id : String) → IsValid m → IsValid (stop_server_op m id).0
unfolding stop_server_op
stop_server_op-IsValid m id v = elim (Option-cases (Map.get m.servers id)) [
  | inl e ↦ rw (e, stop_server_op) v
  | inr (s, e) ↦
      rw (e, stop_server_op)
        (record {
          sound =
              All-set IsSound m.servers id _
                (Fits-le s.status _ _ (All-get IsSound m.servers id s v.sound e)) v.sound;
        })
]

remove_server-IsValid :
    (m : GameServerManager) (id : String) → IsValid m → IsValid (remove_server m id).0
unfolding remove_server
remove_server-IsValid m id v = elim (Option-cases (Map.get m.servers id)) [
  | inl e ↦ rw (e, remove_server) v
  | inr (s, e) ↦
      rw (e, remove_server)
        (elim (Bool-cases (is_stopped s.status)) [
          | inl t ↦ rw t (record { sound = All-delete IsSound m.servers id v.sound })
          | inr f ↦ rw f (record {
            sound =
                All-delete IsSound (stop_server_op m id).0.servers id
                  (stop_server_op-IsValid m id v).sound;
          })
        ])
]

fire-IsValid : (m : GameServerManager) (t : Task) → IsValid m → IsValid (fire m t).0
unfolding fire
fire-IsValid m (run_server id) v = elim (Option-cases (Map.get m.servers id)) [
  | inl e ↦ rw (e, fire) v
  | inr (s, e) ↦
      rw (e, fire)
        (elim (Bool-cases (is_starting s.status)) [
          | inl t ↦ rw t (record {
            sound =
                All-set IsSound m.servers id _
                  (started s.status _ _ t (All-get IsSound m.servers id s v.sound e)) v.sound;
          })
          | inr f ↦ rw f v
        ])
]
  where
    started : (st : ServerStatus) (n k : ℕ) → is_starting st ≡ true → Fits st n k → Fits running n k
    started starting n k t h = omega arith
    started _ n k t h = cc
fire-IsValid m (stop_server id) v = elim (Option-cases (Map.get m.servers id)) [
  | inl e ↦ rw (e, fire) v
  | inr (s, e) ↦
      rw (e, fire)
        (record {
          sound =
              All-set IsSound m.servers id _
                (Fits-le s.status _ _ (All-get IsSound m.servers id s v.sound e)) v.sound;
        })
]

admits-running : (s : GameServerInfo) → admits s ≡ true → is_running s.status ≡ true
admits-running s e = ground arith

add_player-IsValid : (m : GameServerManager) (id : String) → IsValid m → IsValid (add_player m id).0
unfolding add_player
add_player-IsValid m id v = elim (Option-cases (Map.get m.servers id)) [
  | inl e ↦ rw (e, add_player) v
  | inr (s, e) ↦
      rw (e, add_player)
        (elim (Bool-cases (admits s)) [
          | inl t ↦ rw t (record {
            sound =
                All-set IsSound m.servers id _
                  (with_player-Fits s.status s.current_players s.max_players (admits-running s t)
                    (All-get IsSound m.servers id s v.sound e))
                  v.sound;
          })
          | inr f ↦ rw f v
        ])
]

remove_player-IsValid :
    (m : GameServerManager) (id : String) → IsValid m → IsValid (remove_player m id).0
unfolding remove_player
remove_player-IsValid m id v = elim (Option-cases (Map.get m.servers id)) [
  | inl e ↦ rw (e, remove_player) v
  | inr (s, e) ↦
      rw (e, remove_player)
        (record {
          sound =
              All-set IsSound m.servers id _
                (without_player-Fits s.status s.current_players s.max_players
                  (All-get IsSound m.servers id s v.sound e))
                v.sound;
        })
]

create_server-IsValid :
    (m : GameServerManager) (limits : Limits) (cfg : GameServerConfig) (id : String)
    → 0 < limits.max_players_per_server
    → IsValid m
    → IsValid (or_same m (create_server m limits cfg id))
unfolding create_server
create_server-IsValid m limits cfg id h v =
    elim (Bool-cases (leb limits.max_servers (Map.size m.servers))) [
      | inl t ↦ rw t v
      | inr f ↦
          rw f (record { sound = All-set IsSound m.servers id _ (refl, ground arith) v.sound })
    ]

-- The configuration gives a new server at least one place.
abbrev pub HasPlaces : Op → Type 0
HasPlaces (create limits cfg id) = 0 < limits.max_players_per_server
HasPlaces _ = Unit

step-IsValid : (m : GameServerManager) (o : Op) → HasPlaces o → IsValid m → IsValid (step m o)
unfolding step
step-IsValid m (create limits cfg id) h v = create_server-IsValid m limits cfg id h v
step-IsValid m (stop_one id) h v = stop_server_op-IsValid m id v
step-IsValid m (remove_one id) h v = remove_server-IsValid m id v
step-IsValid m (add id) h v = add_player-IsValid m id v
step-IsValid m (remove id) h v = remove_player-IsValid m id v
step-IsValid m (fires t) h v = fire-IsValid m t v
step-IsValid m check_health h v =
    unfold check_server_health in
    record { sound = All-map_values IsSound aged m.servers aged-IsSound v.sound }
step-IsValid m stop_all h v =
    unfold stop in
    record {
      sound = All-map_values IsSound halted m.servers (λ id s f. Fits-le s.status _ _ f) v.sound;
    }

unfoldable pub run : GameServerManager → List Op → GameServerManager
run m [] = m
run m (o ∷ os) = run (step m o) os

run_keeps :
    (m : GameServerManager) (os : List Op) → All HasPlaces os → IsValid m → IsValid (run m os)
unfolding run
run_keeps m [] h v = v
run_keeps m (o ∷ os) h v = run_keeps (step m o) os h.1 (step-IsValid m o h.0 v)

abbrev pub empty_manager : String → GameServerManager
empty_manager node_id = record { servers = []; node_id = node_id; pending = [] }

-- Where the configured number of places is not 0: after any calls of a new manager and any firings of its timers, in any order, each server that it
-- holds fits: it never has more players than places, has a free place while it is running, none when
-- it is marked full, and no player before it runs.
pub run-IsSound :
    (node_id : String) (os : List Op) (id : String) (s : GameServerInfo)
    → All HasPlaces os
    → Map.get (run (empty_manager node_id) os).servers id ≡ some s
    → IsSound s
run-IsSound node_id os id s h e =
    All-get IsSound _ id s (run_keeps (empty_manager node_id) os h (record { sound = start })).sound
      e
  where
    start : All IsSound (Map.values (empty_manager node_id).servers)
    start = unfold Map.values in tt
