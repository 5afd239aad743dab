-- ===== src/Core/StateManager/Split.antt =====
-- `op.path.split('.')` in src/core/state-manager.ts.
use Prim.Native.Char.{code}
use Prim.Native.String.{[], ◌∷◌}
use sync_engine.Base.{String, List, ◌==◌, if◌then◌else◌}
use sync_engine.Core.StateManager.Parts.{only, start_part, extend_first}

-- A full stop has the code 46.
unfoldable pub split : String → List String
split [] = only []
split (c ∷ s) =
    let rest = split s in
    if code c == 46 then start_part rest else extend_first (λ part. c ∷ part) rest
