-- ===== src/Orchestration/Matchmaker/Grouping.antt =====
-- The loop of `processQueue` in src/orchestration/matchmaker.ts that cuts the sorted queue into matches.
use sync_engine.Base.{
  ℕ, zero, suc, ◌≤◌, ◌<◌, ◌≡◌, refl, sym, ap, subst, ◌∙◌, inl, inr, Bool, true, false, List, [],
  ◌∷◌, ◌++◌, min, ltb, leb, ◌==◌, length, take, drop, arith, All, Bool-cases, length-take,
  length-drop, take-append-drop,
}
use sync_engine.Base.Sort
use sync_engine.Orchestration.Matchmaker.{
  MatchRequest, MatchmakingConfig, groups, split_queue, rating,
}

-- The groups one after the other.
unfoldable pub flatten : List (List MatchRequest) → List MatchRequest
flatten [] = []
flatten (g ∷ gs) = g ++ flatten gs

-- The group has a size that the mode allows.
abbrev pub Fits : ℕ → ℕ → List MatchRequest → Type 0
Fits lo hi g = (lo ≤ length g) × (length g ≤ hi)

abbrev IsCut : ℕ → ℕ → List MatchRequest → List (List MatchRequest) × List MatchRequest → Type 0
IsCut lo hi sorted c = (flatten c.0 ++ c.1 ≡ sorted) × All (Fits lo hi) c.0 × (length c.1 < lo)

append_assoc : (xs ys zs : List MatchRequest) → (xs ++ ys) ++ zs ≡ xs ++ (ys ++ zs)
append_assoc [] ys zs = refl
append_assoc (x ∷ xs) ys zs = ap (λ l. x ∷ l) (append_assoc xs ys zs)

groups_short :
    (fuel lo hi : ℕ) (sorted : List MatchRequest)
    → leb lo (length sorted) ≡ false
    → groups (suc fuel) lo hi sorted ≡ ([], sorted)
unfolding groups
groups_short fuel lo hi sorted e = rw (e, groups) refl

groups_step :
    (fuel lo hi : ℕ) (sorted : List MatchRequest)
    → 0 < lo
    → lo ≤ hi
    → leb lo (length sorted) ≡ true
    → let n = min hi (length sorted) in
      let later = groups fuel lo hi (drop n sorted) in
      groups (suc fuel) lo hi sorted ≡ (take n sorted ∷ later.0, later.1)
unfolding groups
groups_step fuel lo hi sorted pos le e =
    let n = min hi (length sorted) in
    let full : ltb (length (take n sorted)) lo ≡ false = ground (arith, length-take n sorted) in
    let some_taken : (n == 0) ≡ false = ground arith in rw (e, full, some_taken, groups) refl

pub groups-IsCut :
    (fuel lo hi : ℕ) (sorted : List MatchRequest)
    → 0 < lo
    → lo ≤ hi
    → length sorted < fuel
    → IsCut lo hi sorted (groups fuel lo hi sorted)
unfolding flatten
groups-IsCut zero lo hi sorted pos le lt = absurd (omega arith)
groups-IsCut (suc fuel) lo hi sorted pos le lt = elim (Bool-cases (leb lo (length sorted))) [
  | inl e ↦
      let n = min hi (length sorted) in
      let size = length-take n sorted in
      let rest = drop n sorted in
      let (joined, fit, few) =
        groups-IsCut fuel lo hi rest pos le (ground (arith, length-drop n sorted)) in
      let later = groups fuel lo hi rest in
      subst (IsCut lo hi sorted) (sym (groups_step fuel lo hi sorted pos le e)) (
        append_assoc (take n sorted) (flatten later.0) later.1
            ∙ ap (λ l. take n sorted ++ l) joined
            ∙ take-append-drop n sorted,
        ((ground arith, ground arith), fit),
        few,
      )
  | inr e ↦
      subst (IsCut lo hi sorted) (sym (groups_short fuel lo hi sorted e)) (refl, tt, ground arith)
]

-- For a mode whose least group is not empty and not above the largest one, the matches and the
-- players left over are together the requests of the queue, each of them as often as it was there, in the order of their
-- ratings; each match has a number of players that the mode allows; and fewer players are
-- left over than one match takes.
pub split_queue-cut :
    (cfg : MatchmakingConfig) (active : List MatchRequest)
    → 0 < cfg.min_players
    → cfg.min_players ≤ cfg.max_players
    → let (matched, left) = split_queue cfg active in
      Sort.IsSorted rating (flatten matched ++ left)
      × ((p : MatchRequest → Bool) → Sort.count p (flatten matched ++ left) ≡ Sort.count p active)
      × All (Fits cfg.min_players cfg.max_players) matched
      × (length left < cfg.min_players)
split_queue-cut cfg active pos le =
    let sorted = Sort.sort rating active in
    let (joined, fit, few) =
      groups-IsCut (suc (length active)) cfg.min_players cfg.max_players sorted pos le
        (omega (arith, Sort.length-sort rating active)) in
    (
      subst (Sort.IsSorted rating) (sym joined) (Sort.sort-IsSorted rating active),
      λ p. ap (Sort.count p) joined ∙ Sort.count-sort rating p active,
      fit,
      few,
    )
