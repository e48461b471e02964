-- ===== src/Tests/Commands.antt =====
-- Command lines, and the theorems on the whole program applied to them.
use uki.Base.{Text, ascii, List, [], ◌∷◌, ◌++◌, ◌≡◌, ◌⊎◌, refl, All, false}
use uki.Effects.{Env, History, Result, Exec, ok}
use uki.Effects.Hoare.{After}
use uki.Effects.Resources.{held, temp}
use uki.Cobra.Execute.{
  first, later, head, tail, Reaches, arrived, down, Parsed, unset, given, Cobra, ran, values_of,
}
use uki.Cobra.Fields.{Holds}
use uki.Root
use uki.Root.Safety as RootSafety
use uki.Push.Closed.{IsClosed, Accepted}
use uki.Push.Index
use uki.Push.Index.Cmd as IndexCmd
use uki.Push.Index.PlatformList
use uki.Push.Index.Options as IndexOptions
use uki.Push.Index.Delivery as IndexDelivery
use uki.Push.Cmd as PushCmd
use uki.Push.Options as PushOptions
use uki.Push.Plan.Cmd as PlanCmd
use uki.Push.Modpack.Cmd as ModpackCmd
use uki.Push.Multi
use uki.Push.Multi.Cmd as MultiCmd
use uki.Push.Multi.PathList
use uki.Push.Multi.Options as MultiOptions
use uki.Push.Multi.Delivery as MultiDelivery
use uki.Push.Artifact
use uki.Push.Artifact.Cmd as ArtifactCmd
use uki.Push.Artifact.Options as ArtifactOptions
use uki.Build.Command as BuildCommand
use uki.Build.Cmd as BuildCmd
use uki.Build.Options as BuildOptions
use uki.Tests.World.{world}

-- `push multi --kernel linux/amd64=bzImage --kernel linux/arm64=Image --cmdline ro`
abbrev multi_line : List (Text × Text)
multi_line =
    (ascii "cmdline", ascii "ro")
    ∷ (ascii "kernel", ascii "linux/arm64=Image")
    ∷ (ascii "kernel", ascii "linux/amd64=bzImage")
    ∷ []

abbrev with_kernels : PathList.PathList → Text → Multi.Opts
with_kernels kernels cmdline = record {
  ref = [];
  kernels = kernels;
  initrds = [];
  modules = [];
  cmdline = cmdline;
}

abbrev one_kernel : PathList.PathList
unfolding ascii
one_kernel = record { platform = ascii "linux/amd64"; path = ascii "bzImage" } ∷ []

abbrev two_kernels : PathList.PathList
unfolding ascii
two_kernels =
    record { platform = ascii "linux/amd64"; path = ascii "bzImage" }
    ∷ record { platform = ascii "linux/arm64"; path = ascii "Image" }
    ∷ []

one_set :
    MultiCmd.set_kernel (ascii "linux/amd64=bzImage") (with_kernels [] [])
    ≡ (ok tt, with_kernels one_kernel [])
unfolding MultiCmd.set_kernel PathList.set ascii one_kernel uki.Strings.split_two
one_set = refl

two_set :
    MultiCmd.set_kernel (ascii "linux/arm64=Image") (with_kernels one_kernel [])
    ≡ (ok tt, with_kernels two_kernels [])
unfolding MultiCmd.set_kernel PathList.set ascii two_kernels one_kernel uki.Strings.split_two
two_set = refl

multi_parsed :
    Parsed (MultiCmd.cmd ⦃env = world⦄) multi_line (with_kernels two_kernels (ascii "ro"))
unfolding MultiCmd.flags
multi_parsed =
    given _ _ (given _ _ (given _ _ unset first one_set) first two_set)
      (later (later (later first))) refl

multi_options-Holds_example : MultiOptions.Holds multi_line (with_kernels two_kernels (ascii "ro"))
multi_options-Holds_example = MultiOptions.multi_options-Holds ⦃env = world⦄ multi_parsed

-- `push index --platform linux/amd64=a --platform linux/arm64=b`
abbrev index_line : List (Text × Text)
index_line =
    (ascii "platform", ascii "linux/arm64=b") ∷ (ascii "platform", ascii "linux/amd64=a") ∷ []

abbrev listing : PlatformList.PlatformList → Index.Opts
listing l = record { platforms = l; out_ref = [] }

abbrev one_platform : PlatformList.PlatformList
unfolding ascii
one_platform = record { platform = ascii "linux/amd64"; ref = ascii "a" } ∷ []

abbrev two_platforms : PlatformList.PlatformList
unfolding ascii
two_platforms =
    record { platform = ascii "linux/amd64"; ref = ascii "a" }
    ∷ record { platform = ascii "linux/arm64"; ref = ascii "b" }
    ∷ []

one_listed :
    IndexCmd.set_platform (ascii "linux/amd64=a") (listing []) ≡ (ok tt, listing one_platform)
unfolding IndexCmd.set_platform PlatformList.set ascii one_platform uki.Strings.split_two
one_listed = refl

two_listed :
    IndexCmd.set_platform (ascii "linux/arm64=b") (listing one_platform)
    ≡ (ok tt, listing two_platforms)
unfolding IndexCmd.set_platform PlatformList.set ascii two_platforms one_platform
    uki.Strings.split_two
two_listed = refl

index_parsed : Parsed (IndexCmd.cmd ⦃env = world⦄) index_line (listing two_platforms)
unfolding IndexCmd.flags
index_parsed = given _ _ (given _ _ unset first one_listed) first two_listed

index_cmd-Pushed_example :
    (PlatformList.get_slice (listing two_platforms).platforms
      ≡ values_of (ascii "platform") index_line)
    × After
        (λ _.
          IndexDelivery.Pushed ⦃env = world⦄ 0 0
            (record (listing two_platforms) { out_ref = ascii "6.6" }))
        (Accepted 0 0)
        ((IndexCmd.cmd ⦃env = world⦄).run (listing two_platforms) (ascii "6.6") [])
index_cmd-Pushed_example =
    IndexOptions.index_cmd-Pushed ⦃env = world⦄ (ascii "6.6") [] index_parsed tt

-- `push artifact --kernel old --kernel vmlinuz`
abbrev artifact_line : List (Text × Text)
artifact_line = (ascii "kernel", ascii "vmlinuz") ∷ (ascii "kernel", ascii "old") ∷ []

abbrev artifact : Artifact.Opts
unfolding ascii ArtifactCmd.no_opts
artifact = record ArtifactCmd.no_opts { kernel = ascii "vmlinuz" }

artifact_parsed : Parsed (ArtifactCmd.cmd ⦃env = world⦄) artifact_line artifact
unfolding ArtifactCmd.flags artifact
artifact_parsed = given _ _ (given _ _ unset (later first) refl) (later first) refl

-- `push plan --file plan.hcl`
abbrev plan_line : List (Text × Text)
plan_line = (ascii "file", ascii "plan.hcl") ∷ []

plan_parsed :
    Parsed (PlanCmd.cmd ⦃env = world⦄) plan_line (record { file = ascii "plan.hcl"; ref = [] })
unfolding PlanCmd.flags
plan_parsed = given _ _ unset first refl

-- `push modpack -o out.gz --src /m/6.6`
abbrev modpack_line : List (Text × Text)
modpack_line = (ascii "src", ascii "/m/6.6") ∷ (ascii "output", ascii "out.gz") ∷ []

modpack_parsed :
    Parsed
      (ModpackCmd.cmd ⦃env = world⦄)
      modpack_line
      (record { src = ascii "/m/6.6"; out = ascii "out.gz" })
unfolding ModpackCmd.flags
modpack_parsed = given _ _ (given _ _ unset (later first) refl) first refl

push_options-Holds_example :
    Holds ArtifactOptions.fields artifact_line artifact
    × Holds PushOptions.plan_fields plan_line (record { file = ascii "plan.hcl"; ref = [] })
    × Holds PushOptions.modpack_fields modpack_line
        (record { src = ascii "/m/6.6"; out = ascii "out.gz" })
push_options-Holds_example =
    PushOptions.push_options-Holds ⦃env = world⦄ artifact_parsed plan_parsed modpack_parsed

-- `build --kernel vmlinuz -o out.iso`
abbrev build_line : List (Text × Text)
build_line = (ascii "output", ascii "out.iso") ∷ (ascii "kernel", ascii "vmlinuz") ∷ []

abbrev build : BuildCommand.Flags
unfolding ascii BuildCmd.defaults
build = record BuildCmd.defaults { kernel = ascii "vmlinuz"; out = ascii "out.iso" }

build_parsed : Parsed (BuildCmd.cmd ⦃env = world⦄) build_line build
unfolding BuildCmd.flags build
build_parsed =
    given _ _ (given _ _ unset (later first) refl)
      (later (later (later (later (later (later (later (later (later (later first)))))))))) refl

build_options-Holds_example : Holds BuildOptions.fields build_line build
build_options-Holds_example = BuildOptions.build_options-Holds ⦃env = world⦄ build_parsed

multi_reached :
    Reaches
      (Root.new_root_cmd ⦃env = world⦄)
      (ascii "push" ∷ ascii "multi" ∷ [])
      (MultiCmd.cmd ⦃env = world⦄)
unfolding Root.new_root_cmd PushCmd.cmd ascii uki.Cobra.first_word
multi_reached = down (tail (tail head)) (down (tail head) arrived)

-- Cobra, as far as it runs this one command whatever the command line is.
abbrev cobra : Cobra (Root.new_root_cmd ⦃env = world⦄)
cobra = record {
  execute = λ argv.
      (MultiCmd.cmd ⦃env = world⦄).run (with_kernels two_kernels (ascii "ro")) (ascii "6.6");
  executes = λ argv h. ran _ _ _ _ (ascii "6.6") multi_reached multi_parsed tt refl;
}

abbrev argv : List Text
argv = ascii "push" ∷ ascii "multi" ∷ ascii "6.6" ∷ []

main_succeeds : (Root.main ⦃env = world⦄ cobra argv []).0 ≡ 0
unfolding Multi.run Artifact.run uki.Push.Index.run uki.Push.Index.PlatformList.set
    uki.Cliutil.parse_platform uki.Effects.◌>>=◌ uki.Effects.fail_if Multi.unique_platforms
    uki.Base.Order.sort_strings Multi.collect_all Multi.collect two_kernels Root.main Multi.contains
    uki.Base.Text-discrete Multi.push_all Multi.derive_per_arch_ref uki.Strings.split_two
    uki.Effects.wrapping Multi.artifact_opts Artifact.lacks_payload PathList.path_for Multi.suffixed
    ascii uki.Effects.perform uki.Effects.print Artifact.add Artifact.add_cmdline
    Artifact.manifest_of Artifact.push_config Artifact.push_file Artifact.push_layers
    Artifact.upload uki.Push.Index.describe uki.Push.Index.describe_all uki.Push.Index.index_of
    native.Mathlib.Decide.ℕ_discrete
main_succeeds = refl

main-IsClosed_example : IsClosed (Root.main ⦃env = world⦄ cobra argv []).1
main-IsClosed_example = RootSafety.main-IsClosed ⦃env = world⦄ cobra argv [] tt

main_stopped_example :
    (held (Root.main ⦃env = world⦄ cobra argv []).1 ≡ [])
    ⊎ ((d : Text) × (held (Root.main ⦃env = world⦄ cobra argv []).1 ≡ temp d ∷ []))
main_stopped_example = RootSafety.main_stopped ⦃env = world⦄ cobra argv []
