-- ===== src/Sync/ConflictResolver/Convergence.antt =====
-- Whether two nodes that resolve the same conflict of src/sync/conflict-resolver.ts agree.
use sync_engine.Base.{ℕ, ◌≡◌, ◌≢◌, refl, ◌⊎◌, none, arith, leb, if◌then◌else◌}
use sync_engine.Base.Map
use sync_engine.Core.Types.{EntityState, StateDelta}
use sync_engine.Sync.ConflictResolver.{
  ConflictResolver, last_write_wins, resolve, resolve_by, resolve_last_write_wins,
}

resolve-last_write_wins :
    (c : ConflictResolver) (a b : EntityState) (da db : StateDelta) (now : ℕ)
    → c.default_strategy ≡ last_write_wins
    → Map.get c.custom_resolvers a.type ≡ none
    → (resolve c a b da db now).1.entity ≡ (if leb b.last_modified a.last_modified then a else b)
unfolding resolve resolve_by resolve_last_write_wins
resolve-last_write_wins c a b da db now p q = rw (q, resolve, p) refl

-- Two nodes without a custom resolver, each with its own version of an entity as the local one, both
-- resolve by the last write: if the times of the writes differ they end with the same version, the
-- later one; if they are the same each keeps its own.
pub last_write_wins_converges :
    (c d : ConflictResolver) (a b : EntityState) (da db : StateDelta) (now later : ℕ)
    → c.default_strategy ≡ last_write_wins
    → d.default_strategy ≡ last_write_wins
    → Map.get c.custom_resolvers a.type ≡ none
    → Map.get d.custom_resolvers b.type ≡ none
    → let here = (resolve c a b da db now).1.entity in
      let there = (resolve d b a db da later).1.entity in
      ((a.last_modified ≢ b.last_modified)
        × (here ≡ there)
        × (here ≡ (if leb b.last_modified a.last_modified then a else b)))
      ⊎ ((a.last_modified ≡ b.last_modified) × (here ≡ a) × (there ≡ b))
last_write_wins_converges c d a b da db now later p q r s = ground (
  arith,
  resolve-last_write_wins c a b da db now p r,
  resolve-last_write_wins d b a db da later q s,
)
