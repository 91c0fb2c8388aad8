-- ===== src/Sync/Pushes.antt =====
-- Every push of `syncOwn` in packages/core/src/sync.ts.
use caveat.Common.{Bool, []}
use caveat.Sync.{Env, World, Sync}
use caveat.Sync.Watch.{IsSafe, SafeLeft}

module _ (env : Env) (trust : Bool) where
  abbrev Safe : World → Type 0
  Safe = IsSafe trust

  abbrev Clear : World → Type 0
  Clear = SafeLeft trust []
