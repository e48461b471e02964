-- ===== src/Tests/Flags.antt =====
-- The values of the flags, the default stub, the derived references and the fake registry, at
-- concrete inputs.
use uki.Base.{
  arith, Text, ascii, [], ◌∷◌, ◌++◌, ◌≡◌, ◌⊎◌, ◌↔◌, refl, List, none, some, All, true, false, ◌==◌,
  is_set, if◌then◌else◌, inl, inr, ℕ, ◌+◌, ◌||◌, is_empty,
}
use uki.Base.Order.Laws.{IsAscending}
use uki.Effects.{ok, err}
use uki.Cliutil
use uki.Cliutil.Laws as PlatformLaws
use uki.Push.Multi
use uki.Push.Multi.PathList
use uki.Push.Multi.PathList.Laws as PathLaws
use uki.Push.Multi.Platforms
use uki.Push.Multi.Refs
use uki.Effects.Hoare.{After}
use uki.Build.Stub
use uki.Build.Stub.Choice as StubChoice
use uki.Fakereg
use uki.Fakereg.Sessions
use uki.Fakereg.Log as FakeregLog
use uki.Fakereg.Refines
use uki.Tests.World.{world, media}

abbrev os : Text
unfolding ascii
os = ascii "linux"

abbrev amd64 : Text
unfolding ascii
amd64 = ascii "amd64"

abbrev platform : Text
unfolding ascii
platform = ascii "linux/amd64"

abbrev other : Text
unfolding ascii
other = ascii "plan9/amd64"

parse_platform_iff_example :
    (Cliutil.parse_platform platform ≡ ok (os, amd64)) ↔ PlatformLaws.IsPlatform platform os amd64
parse_platform_iff_example = PlatformLaws.parse_platform_iff platform os amd64

parse_platform_fails : Cliutil.parse_platform os ≡ err (Cliutil.invalid_platform os)
unfolding os Cliutil.parse_platform uki.Strings.split_two
parse_platform_fails = refl

abbrev entries : PathList.PathList
unfolding ascii
entries =
    record { platform = platform; path = ascii "bzImage" }
    ∷ record { platform = other; path = ascii "9pc" }
    ∷ []

entries_valid : All PathLaws.IsEntry entries
unfolding entries platform other
entries_valid = ground arith

set-cases_example :
    ((p : PathList.PlatformPath) × PathLaws.Spells (ascii "linux/amd64=bzImage") p
      × (PathList.set (ascii "linux/amd64=bzImage") entries ≡ (ok tt, entries ++ p ∷ [])))
    ⊎ (PathList.set (ascii "linux/amd64=bzImage") entries
        ≡ (err (PathList.malformed (ascii "linux/amd64=bzImage")), entries))
set-cases_example = PathLaws.set-cases (ascii "linux/amd64=bzImage") entries

replace-get_slice_example : PathList.replace (PathList.get_slice entries) entries ≡ (ok tt, entries)
replace-get_slice_example = PathLaws.replace-get_slice entries entries entries_valid

spelled : PathList.string_of entries ≡ ascii "[{linux/amd64 bzImage} {plan9/amd64 9pc}]"
unfolding PathList.string_of ascii
spelled = refl

unique_platforms_lem_example :
    IsAscending (Multi.unique_platforms (entries ∷ entries ∷ []))
    × ((x : Text)
        → Multi.contains (Multi.unique_platforms (entries ∷ entries ∷ [])) x
          ≡ Platforms.mentions (entries ∷ entries ∷ []) x)
unique_platforms_lem_example = Platforms.unique_platforms_lem (entries ∷ entries ∷ [])

derive_per_arch_ref_iff_example :
    (Multi.derive_per_arch_ref ⦃env = world⦄ (ascii "6.6") platform
      ≡ Multi.derive_per_arch_ref ⦃env = world⦄ (ascii "6.6") other)
    ↔ (amd64 ≡ amd64)
unfolding ascii Cliutil.parse_platform uki.Strings.split_two
derive_per_arch_ref_iff_example =
    Refs.derive_per_arch_ref_iff ⦃env = world⦄ (ascii "6.6") platform other os (ascii "plan9") amd64
      amd64 _ refl refl refl

abbrev put : Fakereg.Request
unfolding ascii
put = record {
  method = ascii "PUT";
  path = ascii "/v2/r/manifests/6.6";
  digest = [];
  body = ascii "{}";
}

abbrev get : Fakereg.Request
unfolding ascii
get = record { method = ascii "GET"; path = ascii "/v2/r/manifests/6.6"; digest = []; body = [] }

abbrev put_other : Fakereg.Request
unfolding ascii
put_other = record {
  method = ascii "PUT";
  path = ascii "/v2/r/manifests/6.7";
  digest = [];
  body = ascii "{x}";
}

served : FakeregLog.answer media (put ∷ put_other ∷ []) get ≡ record {
  status = 200;
  location = none;
  content_type = some media.image_manifest;
  body = put.body;
}
unfolding FakeregLog.answer Fakereg.route uki.Base.Text-discrete FakeregLog.route_answer
    FakeregLog.manifest_answer FakeregLog.text_of FakeregLog.last FakeregLog.published_at
    FakeregLog.published
served = refl

serve-answer_example :
    (Fakereg.serve media (Sessions.serve_all media Fakereg.empty (put ∷ put_other ∷ [])) get).0
    ≡ FakeregLog.answer media (put ∷ put_other ∷ []) get
serve-answer_example = Refines.serve-answer media (put ∷ put_other ∷ []) get

default_stub-Chosen_example :
    After
      (λ p h. StubChoice.Chosen amd64 Stub.default_stub_roots p h)
      (λ _. ⊥)
      (Stub.default_stub ⦃env = world⦄ amd64 [])
default_stub-Chosen_example = StubChoice.default_stub-Chosen ⦃env = world⦄ amd64 []
