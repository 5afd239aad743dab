-- ===== src/Orchestration/Matchmaker/Rounds.antt =====
-- What a round of `processQueue` in src/orchestration/matchmaker.ts leaves in the queue of its mode.
use sync_engine.Base.{
  ℕ, ◌+◌, ◌≤◌, ◌<◌, ◌≡◌, refl, sym, ap, ◌∙◌, ◌⊎◌, inl, inr, String, Bool, true, false, some, List,
  [], ◌∷◌, filter, length, arith, Option-cases, Bool-cases, or_else, str_eq, eq_iff,
}
use sync_engine.Base.Map
use sync_engine.Base.Map.Laws.{get-set_self, get-delete}
use sync_engine.Orchestration.GameServerManager.{Limits}
use sync_engine.Orchestration.Matchmaker.{
  Matchmaker, MatchRequest, MatchmakingConfig, split_queue, has_player,
}
use sync_engine.Orchestration.Matchmaker.Round.{
  Fresh, choose_server, create_match, create_matches, process_queue, store_queue, left_over,
  still_active,
}
use sync_engine.Orchestration.Matchmaker.Grouping.{split_queue-cut}

-- The requests that wait for a mode.
abbrev pub waiting_for : Matchmaker → String → List MatchRequest
waiting_for m mode = or_else (Map.get m.queue mode) []

-- No player has two requests in the list.
abbrev pub OncePerPlayer : List MatchRequest → Type 0
OncePerPlayer [] = Unit
OncePerPlayer (r ∷ rs) = (has_player r.player_id rs ≡ false) × OncePerPlayer rs

create_match-queue :
    (m m' : Matchmaker) (limits : Limits) (mode : String) (g : List MatchRequest)
    (cfg : MatchmakingConfig) (fresh : Fresh) (now : ℕ)
    → create_match m limits mode g cfg fresh now ≡ some m'
    → m.queue ≡ m'.queue
unfolding create_match
create_match-queue m m' limits mode [] cfg fresh now e = absurd (ground arith)
create_match-queue m m' limits mode (p ∷ ps) cfg fresh now e =
    elim (Option-cases (choose_server m.servers limits mode p cfg fresh)) [
      | inl c ↦ absurd (ground arith)
      | inr (x, c) ↦ ground arith
    ]

-- Making matches leaves the queues alone.
pub create_matches-queue :
    (m : Matchmaker) (limits : Limits) (mode : String) (gs : List (List MatchRequest))
    (cfg : MatchmakingConfig) (ids : ℕ → Fresh) (now : ℕ)
    → (create_matches m limits mode gs cfg ids now).0.queue ≡ m.queue
unfolding create_matches
create_matches-queue m limits mode [] cfg ids now = refl
create_matches-queue m limits mode (g ∷ gs) cfg ids now =
    elim (Option-cases (create_match m limits mode g cfg (ids m.made) now)) [
      | inl e ↦ rw (e, create_matches) refl
      | inr (x, e) ↦
          rw (e, create_matches)
            (create_matches-queue x limits mode gs cfg ids now
              ∙ sym (create_match-queue m x limits mode g cfg (ids m.made) now e))
    ]

stored :
    (m : Matchmaker) (mode : String) (q : List MatchRequest)
    → waiting_for (store_queue m mode q) mode ≡ q
unfolding store_queue
stored m mode [] = ground (arith, get-delete m.queue mode mode, eq_iff mode mode)
stored m mode (r ∷ rs) = rw (get-set_self m.queue mode (r ∷ rs)) refl

-- The round for one mode.
abbrev pub round_of :
    Matchmaker
    → Limits
    → String
    → List MatchRequest
    → MatchmakingConfig
    → (ℕ → Fresh)
    → ℕ
    → Matchmaker
round_of m limits mode queue cfg ids now = (process_queue m limits mode queue cfg ids now).0

round_result :
    (m : Matchmaker) (limits : Limits) (mode : String) (active queue : List MatchRequest)
    (cfg : MatchmakingConfig) (ids : ℕ → Fresh) (now : ℕ)
    → filter (still_active cfg now) queue ≡ active
    → let done = process_queue m limits mode queue cfg ids now in
      ((done.1 ≡ true) × (waiting_for done.0 mode ≡ left_over active (split_queue cfg active).1))
      ⊎ ((done.1 ≡ false) × (waiting_for done.0 mode ≡ active))
unfolding process_queue
round_result m limits mode [] queue cfg ids now e =
    rw (e, process_queue)
      (inl (refl, ap (λ q. waiting_for (store_queue m mode q) mode) e ∙ stored m mode []))
round_result m limits mode (r ∷ rs) queue cfg ids now e =
    let active = r ∷ rs in
    let m1 = store_queue m mode (filter (still_active cfg now) queue) in
    let split = split_queue cfg active in
    let made = create_matches m1 limits mode split.0 cfg ids now in
    elim (Bool-cases made.1) [
      | inl t ↦ rw (e, process_queue, t) (inl (refl, stored made.0 mode (left_over active split.1)))
      | inr f ↦
          rw (e, process_queue, f)
            (inr (
              refl,
              ap (λ q. or_else (Map.get q mode) [])
                    (create_matches-queue m1 limits mode split.0 cfg ids now)
                  ∙ ap (λ q. waiting_for (store_queue m mode q) mode) e
                  ∙ stored m mode active,
            ))
    ]

once_filter :
    (p : MatchRequest → Bool) (id : String) (xs : List MatchRequest)
    → has_player id xs ≡ false
    → has_player id (filter p xs) ≡ false
once_filter p id [] h = refl
once_filter p id (x ∷ xs) h = ground (arith, once_filter p id xs)

filter-OncePerPlayer :
    (p : MatchRequest → Bool) (xs : List MatchRequest)
    → OncePerPlayer xs
    → OncePerPlayer (filter p xs)
filter-OncePerPlayer p [] h = tt
filter-OncePerPlayer p (x ∷ xs) h = elim (Bool-cases (p x)) [
  | inl e ↦ rw e (once_filter p x.player_id xs h.0, filter-OncePerPlayer p xs h.1)
  | inr e ↦ rw e (filter-OncePerPlayer p xs h.1)
]

-- The requests of one player among the given ones.
abbrev of_player : String → List MatchRequest → List MatchRequest
of_player id = filter (λ (r : MatchRequest). str_eq id r.player_id)

none_of_player :
    (id : String) (xs : List MatchRequest) → has_player id xs ≡ false → length (of_player id xs) ≡ 0
none_of_player id [] h = refl
none_of_player id (x ∷ xs) h =
    ground (arith, none_of_player id xs, eq_iff id x.player_id, eq_iff x.player_id id)

one_of_player :
    (id : String) (xs : List MatchRequest) → OncePerPlayer xs → length (of_player id xs) ≤ 1
one_of_player id [] h = omega arith
one_of_player id (x ∷ xs) h = elim (Bool-cases (str_eq id x.player_id)) [
  | inl e ↦
      let same : id ≡ x.player_id = ground (arith, eq_iff id x.player_id) in
      let absent = none_of_player id xs (rw same h.0) in rw e (omega arith)
  | inr e ↦ rw e (one_of_player id xs h.1)
]

left_over_step :
    (x : MatchRequest) (rest xs : List MatchRequest)
    → length (left_over xs (x ∷ rest))
      ≤ length (of_player x.player_id xs) + length (left_over xs rest)
left_over_step x rest [] = omega arith
left_over_step x rest (y ∷ ys) = ground (arith, left_over_step x rest ys)

none_left : (xs : List MatchRequest) → length (left_over xs []) ≡ 0
none_left [] = refl
none_left (x ∷ xs) = none_left xs

few_left :
    (active rest : List MatchRequest)
    → OncePerPlayer active
    → length (left_over active rest) ≤ length rest
few_left active [] once = omega (arith, none_left active)
few_left active (x ∷ rest) once = omega (
  arith,
  left_over_step x rest active,
  one_of_player x.player_id active once,
  few_left active rest once,
)

-- For a mode whose least group is not empty and not above the largest one, and a queue in which no player has
-- two requests: a round that does not throw leaves fewer requests in the mode's queue than one match
-- takes. A round that throws leaves in it exactly the requests that have not timed out.
pub process_queue_leaves_few :
    (m : Matchmaker) (limits : Limits) (mode : String) (queue : List MatchRequest)
    (cfg : MatchmakingConfig) (ids : ℕ → Fresh) (now : ℕ)
    → 0 < cfg.min_players
    → cfg.min_players ≤ cfg.max_players
    → OncePerPlayer queue
    → let done = process_queue m limits mode queue cfg ids now in
      ((done.1 ≡ true) × (length (waiting_for done.0 mode) < cfg.min_players))
      ⊎ ((done.1 ≡ false) × (waiting_for done.0 mode ≡ filter (still_active cfg now) queue))
process_queue_leaves_few m limits mode queue cfg ids now pos le once =
    let active = filter (still_active cfg now) queue in
    let few = (split_queue-cut cfg active pos le).3 in
    let left =
      few_left active (split_queue cfg active).1
        (filter-OncePerPlayer (still_active cfg now) queue once) in
    elim (round_result m limits mode active queue cfg ids now refl) [
      | inl (t, e) ↦ inl (t, rw e (omega arith))
      | inr (f, e) ↦ inr (f, e)
    ]
