-- ===== src/Tests/Multi.antt =====
-- `push multi` in the world where every call succeeds.
use uki.Base.{Text, ascii, [], ◌∷◌, ◌++◌, ◌≡◌, refl, List, none, All, true, arith, false}
use uki.Effects.{ok, err, History}
use uki.Effects.Hoare.{After}
use uki.Cliutil.{parse_platform}
use uki.Push.Artifact
use uki.Push.Index
use uki.Push.Index.PlatformList
use uki.Push.Multi
use uki.Push.Multi.PathList
use uki.Push.Multi.PathList.Laws as PathLaws
use uki.Push.Multi.Delivery as MultiDelivery
use uki.Effects.Faults.{failures}
use uki.Base.{length, ◌+◌, ◌≤◌}
use uki.Base.{ℕ, ◌≢◌, ◌∙◌, sym, ap, if◌then◌else◌}
use uki.Strings.{byte_eq}
use uki.Effects.{Env}
use uki.Oci.{Ref}
use uki.Push.Multi.Resolved as MultiResolved
use uki.Push.Multi.ArchTags
use uki.Push.Multi.Files
use uki.Push.Multi.Costs as MultiCosts
use uki.Push.Multi.Faults as MultiFaults
use uki.Tests.World.{world}
use uki.Push.Plan
use uki.Push.Modpack
use uki.Push.Checks
use uki.Base.{◌⊎◌, inl, inr}
use uki.Tests.Push.{artifact, index, plan, amd64, arm64, tag, ref_to, ref}

abbrev multi : Multi.Opts
unfolding ascii
multi = record {
  ref = tag;
  kernels =
      record { platform = arm64; path = ascii "Image" }
      ∷ record { platform = amd64; path = ascii "bzImage" }
      ∷ [];
  initrds = record { platform = amd64; path = ascii "initrd" } ∷ [];
  modules = [];
  cmdline = [];
}

multi_succeeds : (Multi.run ⦃env = world⦄ multi []).0 ≡ ok tt
unfolding Multi.run Artifact.run Index.run PlatformList.set parse_platform uki.Effects.◌>>=◌
    uki.Effects.fail_if Multi.unique_platforms uki.Base.Order.sort_strings Multi.collect_all
    Multi.collect multi Multi.contains uki.Base.Text-discrete Multi.push_all
    Multi.derive_per_arch_ref uki.Strings.split_two uki.Effects.wrapping Multi.artifact_opts
    Artifact.lacks_payload PathList.path_for Multi.suffixed ascii uki.Effects.perform
    uki.Effects.print Artifact.add Artifact.add_cmdline Artifact.manifest_of Artifact.push_config
    Artifact.push_file Artifact.push_layers Artifact.upload Index.describe Index.describe_all
    Index.index_of native.Mathlib.Decide.ℕ_discrete
multi_succeeds = refl

multi_valid : All (All PathLaws.IsEntry) (MultiDelivery.flags multi)
unfolding multi
multi_valid = ground arith

multi_run-Pushed_example :
    After
      (λ _.
        MultiDelivery.Pushed ⦃env = world⦄ 0 0 multi
          (Multi.unique_platforms (MultiDelivery.flags multi)))
      (MultiDelivery.Unfinished 0)
      (Multi.run ⦃env = world⦄ multi [])
multi_run-Pushed_example = MultiDelivery.multi_run-Pushed ⦃env = world⦄ multi [] multi_valid tt

multi_quiet : failures (Multi.run ⦃env = world⦄ multi []).1 ≡ 0
unfolding Multi.run Artifact.run Index.run PlatformList.set parse_platform uki.Effects.◌>>=◌
    uki.Effects.fail_if Multi.unique_platforms uki.Base.Order.sort_strings Multi.collect_all
    Multi.collect multi Multi.contains uki.Base.Text-discrete Multi.push_all
    Multi.derive_per_arch_ref uki.Strings.split_two uki.Effects.wrapping Multi.artifact_opts
    Artifact.lacks_payload PathList.path_for Multi.suffixed Artifact.upload
    native.Mathlib.Decide.ℕ_discrete ascii uki.Base.Order.insert_sorted uki.Effects.fail
    uki.Effects.ignoring uki.Effects.lift uki.Effects.perform uki.Effects.print uki.Effects.pure
    uki.FilePath.base uki.FilePath.elements uki.FilePath.trim_right Artifact.add
    Artifact.add_cmdline Artifact.manifest_of Artifact.push_config Artifact.push_file
    Artifact.push_layers Index.describe Index.describe_all Index.index_of
    uki.Push.Registry.pushed_line
multi_quiet = refl

multi-IsReady :
    All (MultiFaults.IsReady ⦃env = world⦄ ref) (Multi.unique_platforms (MultiDelivery.flags multi))
unfolding Multi.run Artifact.run Index.run PlatformList.set parse_platform uki.Effects.◌>>=◌
    Multi.unique_platforms uki.Base.Order.sort_strings Multi.collect_all Multi.collect multi
    Multi.contains uki.Base.Text-discrete uki.Strings.split_two Multi.suffixed
multi-IsReady = (
  record {
    os_name = ascii "linux";
    arch = ascii "amd64";
    ref = ref_to (Multi.suffixed ref (ascii "amd64"));
    platform_parsed = refl;
    ref_parsed = refl;
  },
  (
    record {
      os_name = ascii "linux";
      arch = ascii "arm64";
      ref = ref_to (Multi.suffixed ref (ascii "arm64"));
      platform_parsed = refl;
      ref_parsed = refl;
    },
    tt,
  ),
)

multi_some : Index.is_nil (Multi.unique_platforms (MultiDelivery.flags multi)) ≡ false
unfolding Multi.run Artifact.run Index.run PlatformList.set parse_platform uki.Effects.◌>>=◌
    Multi.unique_platforms uki.Base.Order.sort_strings Multi.collect_all Multi.collect multi
    Multi.contains uki.Base.Text-discrete
multi_some = refl

multi_run_complete_example : (Multi.run ⦃env = world⦄ multi []).0 ≡ ok tt
unfolding multi
multi_run_complete_example =
    MultiFaults.multi_run_complete ⦃env = world⦄ multi ref [] refl multi_valid multi_some
      multi-IsReady multi_quiet

multi_run-bounded_example :
    (length (Multi.run ⦃env = world⦄ multi []).1
      ≤ 2 + MultiCosts.all_calls multi (Multi.unique_platforms (MultiDelivery.flags multi)) + 0)
    × (length (Multi.unique_platforms (MultiDelivery.flags multi))
        ≤ length multi.kernels + length multi.initrds + length multi.modules)
multi_run-bounded_example = MultiCosts.multi_run-bounded ⦃env = world⦄ multi []

-- A world in which the tag of a reference stands behind the first colon.
behind_colon : Text → Text
behind_colon [] = []
behind_colon (c ∷ s) = let rest = behind_colon s in if byte_eq c b':' then s else rest

abbrev registry : Env
registry = record world { parse_ref = λ t. ok (ref_to (behind_colon t)) }

abbrev multi_tagged : Multi.Opts
unfolding multi ascii
multi_tagged = record multi { ref = ascii "host/r:6.6" }

registry-tags :
    (arch : Text) (r : Ref)
    → ArchTags.IsTag (ArchTags.arch_tag ref arch)
    → registry.parse_ref (Files.printed ref arch) ≡ ok r
    → r.reference ≡ ArchTags.arch_tag ref arch
unfolding behind_colon ascii
registry-tags arch r t e =
    let same : ref_to (ArchTags.arch_tag ref arch) ≡ r = cc e in
    sym (ap (λ (s : Ref). s.reference) same)

second : Text → ℕ
second (c ∷ d ∷ s) = d
second _ = 0

arches_differ : ascii "amd64" ≢ ascii "arm64"
unfolding ascii second
arches_differ h = omega (arith, ap second h)

amd64-Differ : ArchTags.Differ amd64 arm64
unfolding parse_platform uki.Strings.split_two ascii
amd64-Differ os₁ arch₁ os₂ arch₂ e f g =
    let first : parse_platform amd64 ≡ ok (ascii "linux", ascii "amd64") = refl in
    let other : parse_platform arm64 ≡ ok (ascii "linux", ascii "arm64") = refl in
    let a : arch₁ ≡ ascii "amd64" = cc (first, e) in
    let b : arch₂ ≡ ascii "arm64" = cc (other, f) in arches_differ (sym a ∙ (g ∙ b))

multi-AllDiffer : ArchTags.AllDiffer (Multi.unique_platforms (MultiDelivery.flags multi_tagged))
unfolding parse_platform Multi.unique_platforms uki.Base.Order.sort_strings Multi.collect_all
    Multi.collect multi multi_tagged Multi.contains uki.Base.Text-discrete uki.Strings.split_two
    ascii
multi-AllDiffer = ((amd64-Differ, tt), (tt, tt))

lower : (c : ℕ) → b'a' ≤ c → c ≤ b'z' → ArchTags.IsTagByte c
lower c low high = inl (inl (low, high))

digit : (c : ℕ) → b'0' ≤ c → c ≤ b'9' → ArchTags.IsTagByte c
digit c low high = inl (inr (inr (inl (low, high))))

d6 : ArchTags.IsTagByte b'6'
d6 = digit b'6' (omega arith) (omega arith)

d4 : ArchTags.IsTagByte b'4'
d4 = digit b'4' (omega arith) (omega arith)

la : ArchTags.IsTagByte b'a'
la = lower b'a' (omega arith) (omega arith)

lm : ArchTags.IsTagByte b'm'
lm = lower b'm' (omega arith) (omega arith)

ld : ArchTags.IsTagByte b'd'
ld = lower b'd' (omega arith) (omega arith)

lr : ArchTags.IsTagByte b'r'
lr = lower b'r' (omega arith) (omega arith)

point : ArchTags.IsTagByte b'.'
point = inr (inl refl)

dash : ArchTags.IsTagByte b'-'
dash = inr (inr refl)

amd64-IsTag : ArchTags.IsTag (ArchTags.arch_tag ref (ascii "amd64"))
unfolding ascii
amd64-IsTag = (
  inr (inr (inl (omega arith, omega arith))),
  (point, (d6, (dash, (la, (lm, (ld, (d6, (d4, tt)))))))),
  omega arith,
)

arm64-IsTag : ArchTags.IsTag (ArchTags.arch_tag ref (ascii "arm64"))
unfolding ascii
arm64-IsTag = (
  inr (inr (inl (omega arith, omega arith))),
  (point, (d6, (dash, (la, (lr, (lm, (d6, (d4, tt)))))))),
  omega arith,
)

has_tag :
    (platform os_name arch : Text)
    → parse_platform platform ≡ ok (os_name, arch)
    → ArchTags.IsTag (ArchTags.arch_tag ref arch)
    → ArchTags.HasTag ref platform
has_tag platform os_name arch known t os₂ arch₂ e =
    let same : arch ≡ arch₂ = cc (known, e) in rw same at t

multi-HasTag : All (ArchTags.HasTag ref) (Multi.unique_platforms (MultiDelivery.flags multi_tagged))
unfolding parse_platform Multi.unique_platforms uki.Base.Order.sort_strings Multi.collect_all
    Multi.collect multi multi_tagged Multi.contains uki.Base.Text-discrete uki.Strings.split_two
    ascii
multi-HasTag = (
  has_tag amd64 (ascii "linux") (ascii "amd64") refl amd64-IsTag,
  (has_tag arm64 (ascii "linux") (ascii "arm64") refl arm64-IsTag, tt),
)

multi_tagged_succeeds : (Multi.run ⦃env = registry⦄ multi_tagged []).0 ≡ ok tt
unfolding Multi.run Artifact.run Index.run PlatformList.set parse_platform uki.Effects.◌>>=◌
    uki.Effects.fail_if Multi.unique_platforms uki.Base.Order.sort_strings Multi.collect_all
    Multi.collect multi multi_tagged behind_colon Multi.contains uki.Base.Text-discrete
    Multi.push_all Multi.derive_per_arch_ref uki.Strings.split_two uki.Effects.wrapping
    Multi.artifact_opts Artifact.lacks_payload PathList.path_for Multi.suffixed ascii
    uki.Effects.perform uki.Effects.print Artifact.add Artifact.add_cmdline Artifact.manifest_of
    Artifact.push_config Artifact.push_file Artifact.push_layers Artifact.upload Index.describe
    Index.describe_all Index.index_of native.Mathlib.Decide.ℕ_discrete
multi_tagged_succeeds = refl

multi_run-Resolved_example :
    After
      (λ _ k.
        All
          (λ p. ArchTags.Resolved ⦃env = registry⦄ multi_tagged ref p k)
          (Multi.unique_platforms (MultiDelivery.flags multi_tagged)))
      (λ _. Unit {0})
      (Multi.run ⦃env = registry⦄ multi_tagged [])
unfolding behind_colon multi_tagged ascii
multi_run-Resolved_example =
    MultiResolved.multi_run-Resolved ⦃env = registry⦄ multi_tagged [] ref refl registry-tags
      multi-AllDiffer multi-HasTag tt

abbrev pack : Modpack.Opts
unfolding ascii
pack = record { src = ascii "/m/6.6"; out = [] }

push_checked_example :
    (Checks.Refuses (Artifact.run ⦃env = world⦄ artifact) []
      ⊎ Checks.ArtifactIsValid ⦃env = world⦄ artifact)
    × (Checks.Refuses (Index.run ⦃env = world⦄ index) [] ⊎ Checks.IndexIsValid ⦃env = world⦄ index)
    × (Checks.Refuses (Plan.run ⦃env = world⦄ plan) [] ⊎ Checks.PlanIsValid ⦃env = world⦄ plan)
    × (Checks.Refuses (Multi.run ⦃env = world⦄ multi) [] ⊎ Checks.MultiIsValid ⦃env = world⦄ multi)
    × (Checks.Refuses (Modpack.run ⦃env = world⦄ pack) []
        ⊎ Checks.ModpackIsValid ⦃env = world⦄ pack)
push_checked_example = Checks.push_checked ⦃env = world⦄ artifact index plan multi pack []

-- No output is given.
pack_refused : (Modpack.run ⦃env = world⦄ pack []).1 ≡ []
unfolding Modpack.run uki.Effects.fail_if uki.Effects.◌>>=◌ pack
pack_refused = refl

-- The bound is reached.
multi_calls :
    length (Multi.run ⦃env = world⦄ multi []).1
    ≡ 2 + MultiCosts.all_calls multi (Multi.unique_platforms (MultiDelivery.flags multi))
unfolding Multi.run Artifact.run Index.run PlatformList.set parse_platform uki.Effects.◌>>=◌
    uki.Effects.fail_if Multi.unique_platforms uki.Base.Order.sort_strings Multi.collect_all
    Multi.collect multi Multi.contains uki.Base.Text-discrete Multi.push_all
    Multi.derive_per_arch_ref uki.Strings.split_two uki.Effects.wrapping Multi.artifact_opts
    Artifact.lacks_payload PathList.path_for Multi.suffixed ascii uki.Effects.perform
    uki.Effects.print Artifact.add Artifact.add_cmdline Artifact.manifest_of Artifact.push_config
    Artifact.push_file Artifact.push_layers Artifact.upload Index.describe Index.describe_all
    Index.index_of native.Mathlib.Decide.ℕ_discrete
multi_calls = refl
