-- ===== src/Push/Options.antt =====
-- What the text flags of `push artifact`, `push plan` and `push modpack` mean.
use native.Mathlib.Decide.{ℕ_discrete}
use uki.Base.{Text, ascii, Text-discrete, List, [], ◌∷◌, All, arith}
use uki.Effects.{Env}
use uki.Cobra.Execute.{Parsed}
use uki.Cobra.Fields.{Field, IsTracked, Holds, Parsed-Holds}
use uki.Push.Artifact
use uki.Push.Artifact.Cmd as ArtifactCmd
use uki.Push.Artifact.Options as ArtifactOptions
use uki.Push.Plan
use uki.Push.Plan.Cmd as PlanCmd
use uki.Push.Modpack
use uki.Push.Modpack.Cmd as ModpackCmd

abbrev pub plan_fields : List (Field Plan.Opts)
plan_fields = record { name = ascii "file"; default = []; get = λ o. o.file } ∷ []

abbrev pub modpack_fields : List (Field Modpack.Opts)
modpack_fields =
    record { name = ascii "src"; default = []; get = λ o. o.src }
    ∷ record { name = ascii "output"; default = []; get = λ o. o.out }
    ∷ []

plan-IsTracked : ⦃env : Env⦄ → All (IsTracked PlanCmd.cmd) plan_fields
unfolding PlanCmd.flags ascii Text-discrete ℕ_discrete
plan-IsTracked = ground arith

modpack-IsTracked : ⦃env : Env⦄ → All (IsTracked ModpackCmd.cmd) modpack_fields
unfolding ModpackCmd.flags ascii Text-discrete ℕ_discrete
modpack-IsTracked = ground arith

-- However `push artifact`, `push plan` and `push modpack` are called: each option that their run is
-- given, but for the reference, holds the value that was given last for its flag, or is empty where
-- the flag was not given: the platform, the six files and the command line of `artifact`, the
-- `--file` of `plan`, and `--src` and `--output` of `modpack`.
pub push_options-Holds :
    ⦃env : Env⦄ {l k m : List (Text × Text)} {a : Artifact.Opts} {p : Plan.Opts} {q : Modpack.Opts}
    → Parsed ArtifactCmd.cmd l a
    → Parsed PlanCmd.cmd k p
    → Parsed ModpackCmd.cmd m q
    → Holds ArtifactOptions.fields l a × Holds plan_fields k p × Holds modpack_fields m q
push_options-Holds a p q = (
  ArtifactOptions.artifact_options-Holds a,
  Parsed-Holds PlanCmd.cmd plan_fields plan-IsTracked (ground arith) p,
  Parsed-Holds ModpackCmd.cmd modpack_fields modpack-IsTracked (ground arith) q,
)
