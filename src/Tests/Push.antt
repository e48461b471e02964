-- ===== src/Tests/Push.antt =====
-- The push commands in the world where every call succeeds.
use uki.Base.{Text, ascii, [], ◌∷◌, ◌≡◌, refl, All, ◌++◌}
use uki.Effects.{ok, err, History}
use uki.Effects.Hoare.{After}
use uki.Cliutil.{parse_platform}
use uki.Push.Closed.{Accepted}
use uki.Push.Artifact
use uki.Push.Artifact.Delivery as ArtifactDelivery
use uki.Push.Plan
use uki.Push.Plan.Delivery as PlanDelivery
use uki.Push.Index
use uki.Push.Index.Delivery as IndexDelivery
use uki.Oci.{Ref}
use uki.Effects.Faults.{failures}
use uki.Push.Artifact.Faults as ArtifactFaults
use uki.Push.Index.Faults as IndexFaults
use uki.Push.Plan.Faults as PlanFaults
use uki.Json
use uki.Tests.World.{world}

abbrev pub amd64 : Text
amd64 = ascii "linux/amd64"

abbrev pub arm64 : Text
arm64 = ascii "linux/arm64"

abbrev pub tag : Text
tag = ascii "6.6"

-- What a reference is parsed to.
abbrev pub ref_to : Text → Ref
ref_to t = record { scheme = ascii "https"; host = ascii "host"; repo = ascii "r"; reference = t }

abbrev pub ref : Ref
ref = ref_to tag

abbrev pub artifact : Artifact.Opts
unfolding ascii
artifact = record {
  platform = amd64;
  kernel = ascii "dir/vmlinuz";
  initrd = ascii "initrd.img";
  modules = [];
  modloop = [];
  apkovl = [];
  squashfs = [];
  cmdline = ascii "ro";
  ref = tag;
}

artifact_succeeds : (Artifact.run ⦃env = world⦄ artifact []).0 ≡ ok tt
unfolding Artifact.run parse_platform uki.Effects.◌>>=◌ uki.Effects.fail_if artifact
    uki.Strings.split_two Artifact.lacks_payload Artifact.upload Artifact.push_config
    uki.Effects.wrapping uki.Effects.perform Artifact.push_layers Artifact.add Artifact.push_file
    Artifact.add_cmdline uki.Effects.print
artifact_succeeds = refl

artifact_run-Pushed_example :
    After
      (λ _. ArtifactDelivery.Pushed ⦃env = world⦄ 0 0 artifact)
      (Accepted 0 0)
      (Artifact.run ⦃env = world⦄ artifact [])
artifact_run-Pushed_example = ArtifactDelivery.artifact_run-Pushed ⦃env = world⦄ artifact [] tt

abbrev pub plan : Plan.Opts
unfolding ascii
plan = record { file = ascii "plan.hcl"; ref = tag }

plan_succeeds : (Plan.run ⦃env = world⦄ plan []).0 ≡ ok tt
unfolding Plan.run uki.Effects.◌>>=◌ uki.Effects.fail_if plan uki.Effects.perform
    uki.Effects.wrapping uki.Effects.print
plan_succeeds = refl

plan_run-Pushed_example :
    After
      (λ _. PlanDelivery.Pushed ⦃env = world⦄ 0 0 plan)
      (Accepted 0 0)
      (Plan.run ⦃env = world⦄ plan [])
plan_run-Pushed_example = PlanDelivery.plan_run-Pushed ⦃env = world⦄ plan [] tt

abbrev pub index : Index.Opts
unfolding ascii
index = record {
  platforms =
      record { platform = amd64; ref = ascii "a" }
      ∷ record { platform = arm64; ref = ascii "b" }
      ∷ [];
  out_ref = tag;
}

index_succeeds : (Index.run ⦃env = world⦄ index []).0 ≡ ok tt
unfolding Index.run parse_platform uki.Effects.◌>>=◌ uki.Effects.fail_if index Index.describe_all
    Index.describe uki.Strings.split_two uki.Effects.wrapping uki.Effects.perform uki.Effects.print
index_succeeds = refl

index_run-Pushed_example :
    After
      (λ _. IndexDelivery.Pushed ⦃env = world⦄ 0 0 index)
      (Accepted 0 0)
      (Index.run ⦃env = world⦄ index [])
index_run-Pushed_example = IndexDelivery.index_run-Pushed ⦃env = world⦄ index [] tt

artifact-IsValid : ArtifactFaults.IsValid ⦃env = world⦄ artifact
unfolding artifact parse_platform uki.Strings.split_two Artifact.lacks_payload
artifact-IsValid = record {
  os_name = ascii "linux";
  arch = ascii "amd64";
  ref = ref;
  platform_parsed = refl;
  ref_parsed = refl;
  payload = refl;
}

artifact_quiet : failures (Artifact.run ⦃env = world⦄ artifact []).1 ≡ 0
unfolding Artifact.run parse_platform uki.Effects.◌>>=◌ uki.Effects.fail_if artifact
    uki.Strings.split_two Artifact.lacks_payload Artifact.upload Artifact.push_config
    uki.Effects.wrapping uki.Effects.perform Artifact.push_layers Artifact.add Artifact.push_file
    Artifact.add_cmdline uki.Effects.print
artifact_quiet = refl

artifact_run_complete_example : (Artifact.run ⦃env = world⦄ artifact []).0 ≡ ok tt
artifact_run_complete_example =
    ArtifactFaults.artifact_run_complete ⦃env = world⦄ artifact [] artifact-IsValid artifact_quiet

index_quiet : failures (Index.run ⦃env = world⦄ index []).1 ≡ 0
unfolding Index.run parse_platform uki.Effects.◌>>=◌ uki.Effects.fail_if index Index.describe_all
    Index.describe uki.Strings.split_two uki.Effects.wrapping uki.Effects.perform uki.Effects.print
index_quiet = refl

index-IsValid : All (IndexFaults.IsValid ⦃env = world⦄) index.platforms
unfolding index parse_platform uki.Strings.split_two
index-IsValid = (
  record {
    os_name = ascii "linux";
    arch = ascii "amd64";
    ref = ref_to (ascii "a");
    platform_parsed = refl;
    ref_parsed = refl;
  },
  (
    record {
      os_name = ascii "linux";
      arch = ascii "arm64";
      ref = ref_to (ascii "b");
      platform_parsed = refl;
      ref_parsed = refl;
    },
    tt,
  ),
)

index_run_complete_example : (Index.run ⦃env = world⦄ index []).0 ≡ ok tt
unfolding index
index_run_complete_example =
    IndexFaults.index_run_complete ⦃env = world⦄ index [] {ref = ref} refl index-IsValid refl
      index_quiet

plan_quiet : failures (Plan.run ⦃env = world⦄ plan []).1 ≡ 0
unfolding Plan.run uki.Effects.◌>>=◌ uki.Effects.fail_if plan uki.Effects.wrapping
    uki.Effects.perform uki.Effects.print
plan_quiet = refl

plan_run_complete_example : (Plan.run ⦃env = world⦄ plan []).0 ≡ ok tt
unfolding plan
plan_run_complete_example =
    PlanFaults.plan_run_complete ⦃env = world⦄ plan [] {ref = ref} refl refl plan_quiet

-- The config of linux/amd64.
config_written :
    Artifact.config_json (ascii "linux") (ascii "amd64")
    ≡ ascii "{\"architecture\":\"amd64\",\"created\":null,\"os\":\"linux\"}"
unfolding Artifact.config_json uki.Json.marshal uki.Json.value uki.Json.quoted ascii
config_written = refl

-- A byte that is not UTF-8, the separator U+2028, and a letter outside ASCII.
quoted_bytes :
    uki.Json.quoted (0xff ∷ 0xe2 ∷ 0x80 ∷ 0xa8 ∷ 0xc3 ∷ 0xa9 ∷ [])
    ≡ ascii "\"\\ufffd\\u2028" ++ 0xc3 ∷ 0xa9 ∷ b'"' ∷ []
unfolding uki.Json.quoted ascii
quoted_bytes = refl
