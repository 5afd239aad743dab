-- ===== src/Core/StateManager/Deltas.antt =====
-- `getDeltasSince` of src/core/state-manager.ts.
use sync_engine.Base.{ℕ, ◌≡◌, refl, ap, ◌∙◌, Bool, List, [], ◌∷◌, ◌++◌, arith, filter}
use sync_engine.Base.Map
use sync_engine.Base.Sort
use sync_engine.Core.Types.{StateDelta}
use sync_engine.Core.StateManager.State.{StateManager, from_on, collect_since, get_deltas_since}

-- The deltas of all histories.
unfoldable pub all_deltas : List (List StateDelta) → List StateDelta
all_deltas [] = []
all_deltas (h ∷ hs) = h ++ all_deltas hs

abbrev pub time_of : StateDelta → ℕ
time_of d = d.timestamp

filter-append :
    (p : StateDelta → Bool) (xs ys : List StateDelta)
    → filter p (xs ++ ys) ≡ filter p xs ++ filter p ys
filter-append p [] ys = refl
filter-append p (x ∷ xs) ys = ground (arith, filter-append p xs ys)

collect_since_lem :
    (version : ℕ) (hs : List (List StateDelta))
    → collect_since version hs ≡ filter (from_on version) (all_deltas hs)
unfolding collect_since all_deltas
collect_since_lem version [] = refl
collect_since_lem version (h ∷ hs) =
    ground (arith, collect_since_lem version hs, filter-append (from_on version) h (all_deltas hs))

-- The deltas since a version are in the order of their times, and are those of all histories that
-- start from that version or a later one, each as often as it is recorded.
pub get_deltas_since_complete :
    (s : StateManager) (version : ℕ)
    → Sort.IsSorted time_of (get_deltas_since s version)
      × ((p : StateDelta → Bool)
          → Sort.count p (get_deltas_since s version)
            ≡ Sort.count p (filter (from_on version) (all_deltas (Map.values s.history))))
unfolding get_deltas_since
get_deltas_since_complete s version = (
  Sort.sort-IsSorted time_of (collect_since version (Map.values s.history)),
  λ p.
      Sort.count-sort time_of p (collect_since version (Map.values s.history))
      ∙ ap (Sort.count p) (collect_since_lem version (Map.values s.history)),
)
