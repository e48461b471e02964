-- ===== src/Build/Options.antt =====
-- What the flags of `build` mean.
use native.Mathlib.Decide.{ℕ_discrete}
use uki.Base.{String, Text, ascii, Text-discrete, List, [], ◌∷◌, All, arith}
use uki.Effects.{Env}
use uki.Cobra.Execute.{Parsed}
use uki.Cobra.Fields.{Field, IsTracked, Holds, Parsed-Holds}
use uki.Build.Command.{Flags}
use uki.Build.Cmd

abbrev field : String → Text → (Flags → Text) → Field Flags
field name default get = record { name = ascii name; default = default; get = get }

-- The variables of type string of `build`, each with the name and the default of a flag.
abbrev pub fields : List (Field Flags)
fields =
    field "arch" (ascii "amd64") (λ o. o.arch)
    ∷ field "kernel" [] (λ o. o.kernel)
    ∷ field "stub" [] (λ o. o.stub)
    ∷ field "cmdline" (ascii "console=ttyS0") (λ o. o.cmdline)
    ∷ field "image" [] (λ o. o.image)
    ∷ field "plan" [] (λ o. o.plan_ref)
    ∷ field "plan-file" [] (λ o. o.plan_file)
    ∷ field "target" [] (λ o. o.target)
    ∷ field "extra-cmdline" [] (λ o. o.extra)
    ∷ field "uname" (ascii "6.6.0-cloud-boot") (λ o. o.uname)
    ∷ field "output" (ascii "boot.iso") (λ o. o.out)
    ∷ field "work" [] (λ o. o.work_dir)
    ∷ field "cosign-key" [] (λ o. o.cosign_key)
    ∷ field "zfs-userspace-cpio" [] (λ o. o.zfs_userspace_cpio)
    ∷ []

tracked : ⦃env : Env⦄ → All (IsTracked Cmd.cmd) fields
unfolding Cmd.flags ascii Text-discrete ℕ_discrete
tracked = ground arith

-- However `build` is called: each variable of type string holds the value that was given last for its
-- flag, or the default of the flag where it was not given.
pub build_options-Holds :
    ⦃env : Env⦄ {l : List (Text × Text)} {o : Flags} → Parsed Cmd.cmd l o → Holds fields l o
unfolding Cmd.defaults
build_options-Holds p = Parsed-Holds Cmd.cmd fields tracked (ground arith) p
