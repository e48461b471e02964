-- ===== src/Push/Multi/PathList.antt =====
-- The repeated `<os/arch>=<path>` flags of cmd/cloud-boot/push/multi/cmd.go. A method on
-- `*PathList` returns its result and the list that the pointer then holds.
pub mod Laws
use uki.Base.{
  Text, ascii, Bool, true, false, List, [], ◌∷◌, ◌++◌, ◌||◌, ◌==◌, map, is_empty, if◌then◌else◌,
}
use uki.Strings.{split_two, format_pairs}
use uki.Effects.{Result, ok, err, Error, errorf}

-- `PlatformPath`
pub record PlatformPath : Type 0 where
  pub platform : Text
  pub path : Text

-- `PathList`
abbrev pub PathList : Type 0
PathList = List PlatformPath

pub malformed : Text → Error
malformed v = errorf "expected <os/arch>=<path>, got %q" (v ∷ [])

set_parts : Text → List Text → PathList → Result (Unit {0}) × PathList
set_parts v (platform ∷ path ∷ []) l =
    if is_empty platform || is_empty path
    then (err (malformed v), l)
    else (ok tt, l ++ record { platform = platform; path = path } ∷ [])
set_parts v _ l = (err (malformed v), l)

-- `(*PathList).Set`
unfoldable pub set : Text → PathList → Result (Unit {0}) × PathList
unfolding set_parts malformed
set v l = set_parts v (split_two v b'=') l

-- `(*PathList).Append`
pub append : Text → PathList → Result (Unit {0}) × PathList
append v l = set v l

-- The loop of `Replace` over the values.
unfoldable pub set_all : List Text → PathList → Result (Unit {0}) × PathList
set_all [] l = (ok tt, l)
set_all (v ∷ vals) l =
    let (r, l') = set v l in elim r [ ok _ ↦ set_all vals l' | err e ↦ (err e, l') ]

-- `(*PathList).Replace`
unfoldable pub replace : List Text → PathList → Result (Unit {0}) × PathList
unfolding set_all
replace vals l = set_all vals []

-- `(*PathList).GetSlice`
pub get_slice : PathList → List Text
get_slice = map (λ p. p.platform ++ b'=' ∷ p.path)

-- `PathList.pathFor`: the first path of the platform, or "".
unfoldable pub path_for : PathList → Text → Text
path_for [] platform = []
path_for (p ∷ l) platform = if p.platform == platform then p.path else path_for l platform

-- `(*PathList).String`
unfoldable pub string_of : PathList → Text
unfolding format_pairs
string_of l = format_pairs (map (λ p. (p.platform, p.path)) l)

-- `(*PathList).Type`
pub type_name : Text
type_name = ascii "platform=path"
