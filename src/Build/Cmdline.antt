-- ===== src/Build/Cmdline.antt =====
-- `BuildCmdline` and `joinWords` of cmd/cloud-boot/build/build.go.
pub mod Words
use uki.Base.{Text, Bool, ascii, is_empty, is_set, not, List, [], ◌∷◌, ◌++◌, if◌then◌else◌}
use uki.Build.Opts.{Opts}

-- The loop of `joinWords`, with `out` so far.
unfoldable pub join_onto : Text → List Text → Text
join_onto out [] = out
join_onto out (s ∷ p) =
    join_onto (if is_empty s then out else (if is_set out then out ++ ascii " " else out) ++ s) p

-- `joinWords`
unfoldable pub join_words : List Text → Text
join_words = join_onto []

-- `if b { parts = append(parts, s) }`
abbrev append_if : Bool → Text → List Text → List Text
append_if b s parts = if b then parts ++ s ∷ [] else parts

unfoldable pub cmdline_parts : Opts → List Text
cmdline_parts o =
    let p₁ = append_if (not o.verbose) (ascii "quiet") (o.cmdline ∷ []) in
    let p₂ = append_if (is_set o.plan_ref) (ascii "cloudboot.plan=" ++ o.plan_ref) p₁ in
    let p₃ = append_if (is_set o.image) (ascii "cloudboot.image=" ++ o.image) p₂ in
    let p₄ = append_if (is_set o.target) (ascii "cloudboot.target=" ++ o.target) p₃ in
    let p₅ = append_if o.insec (ascii "cloudboot.insecure=1") p₄ in
    append_if (is_set o.extra) o.extra p₅

-- `BuildCmdline`
unfoldable pub build_cmdline : Opts → Text
build_cmdline o = join_words (cmdline_parts o)
