-- ===== src/Push/Plan/Balance.antt =====
-- `push plan` holds nothing behind its run.
use uki.Effects.{Env, print}
use uki.Effects.Resources.{IsBalanced}
use uki.Effects.Resources.Quiet.{balanced}
use uki.Push.Plan.{Opts, run}

pub IsBalanced-run : ⦃env : Env⦄ (o : Opts) → IsBalanced (run o)
unfolding run print
IsBalanced-run o = search balanced depth 12
