-- ===== src/Push/Index/PlatformList.antt =====
-- The repeated `--platform <os/arch>=<ref>` flag of cmd/cloud-boot/push/index/cmd.go. A method on
-- `*PlatformList` returns its result and the list that the pointer then holds.
pub mod Laws
use uki.Base.{Text, ascii, List, [], ◌∷◌, ◌++◌, map}
use uki.Strings.{split_two, format_pairs}
use uki.Effects.{Result, ok, err, errorf}

-- `PlatformSpec`
pub record PlatformSpec : Type 0 where
  pub platform : Text
  pub ref : Text

-- `PlatformList`
abbrev pub PlatformList : Type 0
PlatformList = List PlatformSpec

set_parts : Text → List Text → PlatformList → Result (Unit {0}) × PlatformList
set_parts v (platform ∷ ref ∷ []) l = (ok tt, l ++ record { platform = platform; ref = ref } ∷ [])
set_parts v _ l = (err (errorf "expected <os/arch>=<ref>, got %q" (v ∷ [])), l)

-- `(*PlatformList).Set`
unfoldable pub set : Text → PlatformList → Result (Unit {0}) × PlatformList
unfolding set_parts
set v l = set_parts v (split_two v b'=') l

-- `(*PlatformList).Append`
pub append : Text → PlatformList → Result (Unit {0}) × PlatformList
append v l = set v l

-- The loop of `Replace` over the values.
set_all : List Text → PlatformList → Result (Unit {0}) × PlatformList
set_all [] l = (ok tt, l)
set_all (v ∷ vals) l =
    let (r, l') = set v l in elim r [ ok _ ↦ set_all vals l' | err e ↦ (err e, l') ]

-- `(*PlatformList).Replace`
unfoldable pub replace : List Text → PlatformList → Result (Unit {0}) × PlatformList
unfolding set_all
replace vals l = set_all vals []

-- `(*PlatformList).GetSlice`
unfoldable pub get_slice : PlatformList → List Text
get_slice = map (λ p. p.platform ++ b'=' ∷ p.ref)

-- `(*PlatformList).String`
unfoldable pub string_of : PlatformList → Text
unfolding format_pairs
string_of l = format_pairs (map (λ p. (p.platform, p.ref)) l)

-- `(*PlatformList).Type`
pub type_name : Text
type_name = ascii "platform=ref"
