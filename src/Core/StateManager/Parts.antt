-- ===== src/Core/StateManager/Parts.antt =====
-- The list of parts that `split` builds for src/core/state-manager.ts.
use sync_engine.Base.{String, List, [], ◌∷◌}

abbrev pub only : String → List String
only part = part ∷ []

abbrev pub start_part : List String → List String
start_part parts = "" ∷ parts

abbrev pub extend_first : (String → String) → List String → List String
extend_first f [] = f "" ∷ []
extend_first f (part ∷ parts) = f part ∷ parts
