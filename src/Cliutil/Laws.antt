-- ===== src/Cliutil/Laws.antt =====
-- What `ParsePlatform` accepts.
use uki.Base.{Text, [], ◌∷◌, ◌≡◌, ◌≢◌, ◌↔◌, arith, inl, inr, is_empty, sym, ◌∙◌}
use uki.Base.{is_empty-ne, if◌then◌else◌, ◌||◌}
use uki.Strings.Split.{Lacks, IsCut, split_two-cut, split_two_of_Lacks, split_two-cases}
use uki.Effects.{Result, Error, ok, err}
use uki.Cliutil.{parse_platform, invalid_platform}

-- A platform that is accepted, and its two parts.
pub record IsPlatform (s os_name arch : Text) : Type 0 where
  pub cut : IsCut s b'/' os_name arch
  pub os_set : os_name ≢ []
  pub arch_set : arch ≢ []

parse_platform-cut :
    (s a b : Text)
    → IsCut s b'/' a b
    → parse_platform s ≡ (if is_empty a || is_empty b then err (invalid_platform s) else ok (a, b))
unfolding parse_platform
parse_platform-cut s a b cut = rw (split_two-cut s b'/' a b cut)

parse_platform_of_Lacks : (s : Text) → Lacks b'/' s → parse_platform s ≡ err (invalid_platform s)
unfolding parse_platform
parse_platform_of_Lacks s lacks = rw (split_two_of_Lacks s b'/' lacks)

pub parse_platform-IsPlatform :
    (s os_name arch : Text) → IsPlatform s os_name arch → parse_platform s ≡ ok (os_name, arch)
parse_platform-IsPlatform s os_name arch p =
    rw (parse_platform-cut s os_name arch p.cut)
      (ground (arith, is_empty-ne os_name p.os_set, is_empty-ne arch p.arch_set))

accepted_parts :
    (a b o r : Text) (e : Error)
    → if◌then◌else◌ {A = Result (Text × Text)} (is_empty a || is_empty b) (err e) (ok (a, b))
      ≡ ok (o, r)
    → (a ≡ o) × (b ≡ r) × (a ≢ []) × (b ≢ [])
accepted_parts [] b o r e h = cc
accepted_parts (c ∷ a) [] o r e h = cc
accepted_parts (c ∷ a) (d ∷ b) o r e h = (cc, cc, λ n. cc, λ n. cc)

pub IsPlatform-parse_platform :
    (s os_name arch : Text) → parse_platform s ≡ ok (os_name, arch) → IsPlatform s os_name arch
IsPlatform-parse_platform s os_name arch h = elim (split_two-cases s b'/') [
  | inl (a, b, cut) ↦ found a b cut
  | inr lacks ↦ cc (parse_platform_of_Lacks s lacks)
]
  where
    found : (a b : Text) → IsCut s b'/' a b → IsPlatform s os_name arch
    found a b cut =
        let (ea, eb, na, nb) =
          accepted_parts a b os_name arch _ (sym (parse_platform-cut s a b cut) ∙ h) in
        rw (← ea, ← eb) (record { cut = cut; os_set = na; arch_set = nb })

-- `ParsePlatform(s)` returns `os_name` and `arch` exactly when `s` is `os_name/arch`, cut at the
-- first slash, and neither part is empty.
pub parse_platform_iff :
    (s os_name arch : Text) → (parse_platform s ≡ ok (os_name, arch)) ↔ IsPlatform s os_name arch
parse_platform_iff s os_name arch =
    (IsPlatform-parse_platform s os_name arch, parse_platform-IsPlatform s os_name arch)

-- An error of `ParsePlatform` is always the one message, about the text that was given.
pub parse_platform_error :
    (s : Text) {e : Error} → parse_platform s ≡ err e → e ≡ invalid_platform s
parse_platform_error s h = elim (split_two-cases s b'/') [
  | inl (a, b, cut) ↦ ground (arith, parse_platform-cut s a b cut)
  | inr lacks ↦ cc (parse_platform_of_Lacks s lacks)
]
