-- ===== src/Push/Artifact/Options.antt =====
-- What the flags of `push artifact` mean.
use native.Mathlib.Decide.{ℕ_discrete}
use uki.Base.{String, Text, ascii, Text-discrete, List, [], ◌∷◌, All, arith}
use uki.Effects.{Env}
use uki.Cobra.Execute.{Parsed}
use uki.Cobra.Fields.{Field, IsTracked, Holds, Parsed-Holds}
use uki.Push.Artifact.{Opts}
use uki.Push.Artifact.Cmd

abbrev field : String → Text → (Opts → Text) → Field Opts
field name default get = record { name = ascii name; default = default; get = get }

-- The options of `push artifact`, but for the reference, each with the name of a flag.
abbrev pub fields : List (Field Opts)
fields =
    field "platform" [] (λ o. o.platform)
    ∷ field "kernel" [] (λ o. o.kernel)
    ∷ field "initrd" [] (λ o. o.initrd)
    ∷ field "modules" [] (λ o. o.modules)
    ∷ field "modloop" [] (λ o. o.modloop)
    ∷ field "apkovl" [] (λ o. o.apkovl)
    ∷ field "squashfs" [] (λ o. o.squashfs)
    ∷ field "cmdline" [] (λ o. o.cmdline)
    ∷ []

tracked : ⦃env : Env⦄ → All (IsTracked Cmd.cmd) fields
unfolding Cmd.flags ascii Text-discrete ℕ_discrete
tracked = ground arith

-- However `push artifact` is called: each option that its run is given, but for the reference,
-- holds the value that was given last for the flag of the same name, or is empty where the flag was
-- not given.
pub artifact_options-Holds :
    ⦃env : Env⦄ {l : List (Text × Text)} {o : Opts} → Parsed Cmd.cmd l o → Holds fields l o
unfolding Cmd.no_opts
artifact_options-Holds p = Parsed-Holds Cmd.cmd fields tracked (ground arith) p
