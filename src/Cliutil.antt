-- ===== src/Cliutil.antt =====
-- cmd/cloud-boot/internal/cliutil/cliutil.go
pub mod Laws
use uki.Base.{Text, Bool, true, false, List, [], ◌∷◌, ◌||◌, is_empty, if◌then◌else◌}
use uki.Strings.{split_two}
use uki.Effects.{Result, ok, err, Error, errorf}

pub invalid_platform : Text → Error
invalid_platform s = errorf "invalid platform %q (want os/arch)" (s ∷ [])

-- The test on the parts, and what it returns.
platform_of : Text → List Text → Result (Text × Text)
platform_of s (os_name ∷ arch ∷ []) =
    if is_empty os_name || is_empty arch then err (invalid_platform s) else ok (os_name, arch)
platform_of s _ = err (invalid_platform s)

-- `ParsePlatform`
unfoldable pub parse_platform : Text → Result (Text × Text)
unfolding platform_of invalid_platform
parse_platform s = platform_of s (split_two s b'/')
