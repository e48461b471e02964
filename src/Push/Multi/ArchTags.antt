-- ===== src/Push/Multi/ArchTags.antt =====
-- The tags of the platforms, and what they name, for cmd/cloud-boot/push/multi/cmd.go.
use uki.Base.{ℕ, ◌⊎◌, ◌≤◌, Text, ascii, List, [], ◌∷◌, ◌++◌, ◌≡◌, ◌≢◌, All, length}
use uki.Oci.{Ref}
use uki.Effects.{Env, Event, History, ok}
use uki.Cliutil.{parse_platform}
use uki.Push.Tags.{Spares, Tagged, kept}
use uki.Push.Artifact.Delivery as Artifacts
use uki.Push.Multi.{Opts}
use uki.Push.Multi.Files.{printed, Files, with_files}

-- The tag for an architecture.
abbrev pub arch_tag : Ref → Text → Text
arch_tag r arch = r.reference ++ (ascii "-" ++ arch)

-- A byte of a tag, and the first byte.
abbrev pub IsWordByte : ℕ → Type 0
IsWordByte c =
    (b'a' ≤ c) × (c ≤ b'z') ⊎ (b'A' ≤ c) × (c ≤ b'Z') ⊎ (b'0' ≤ c) × (c ≤ b'9') ⊎ (c ≡ b'_')

abbrev pub IsTagByte : ℕ → Type 0
IsTagByte c = IsWordByte c ⊎ (c ≡ b'.') ⊎ (c ≡ b'-')

-- The grammar of a tag, `[A-Za-z0-9_][A-Za-z0-9._-]{0,127}`.
abbrev pub IsTag : Text → Type 0
IsTag [] = ⊥
IsTag (c ∷ s) = IsWordByte c × All IsTagByte s × (length s ≤ 127)

-- The tag for a platform is one by the grammar.
abbrev pub HasTag : Ref → Text → Type 0
HasTag r platform =
    (os_name arch : Text) → parse_platform platform ≡ ok (os_name, arch) → IsTag (arch_tag r arch)

-- The manifest of one platform, with the files of its flags, is what its tag names.
pub record ResolvedAs ⦃env : Env⦄ (o : Opts) (r : Ref) (platform os_name arch : Text) (ref : Ref)
    (h : History) : Type 0 where
  pub arch_ref : Text
  pub spelled : arch_ref ≡ printed r arch
  pub platform_parsed : parse_platform platform ≡ ok (os_name, arch)
  pub ref_parsed : env.parse_ref arch_ref ≡ ok ref
  pub tag_printed : ref.reference ≡ arch_tag r arch
  pub files : Files o platform
  pub published : Artifacts.Published (with_files o platform arch_ref files) os_name arch ref h
  pub tagged : Tagged ref published.manifest h

abbrev pub Resolved : ⦃env : Env⦄ → Opts → Ref → Text → History → Type 0
Resolved o r platform h =
    (os_name : Text) × (arch : Text) × (ref : Ref) × ResolvedAs o r platform os_name arch ref h

pub ResolvedAs-later :
    ⦃env : Env⦄ (o : Opts) (r : Ref) (platform os_name arch : Text) (ref : Ref) (h : History)
    (e : Event)
    → Spares ref.reference e.call
    → ResolvedAs o r platform os_name arch ref h
    → ResolvedAs o r platform os_name arch ref (e ∷ h)
ResolvedAs-later o r platform os_name arch ref h e s x = record {
  arch_ref = x.arch_ref;
  spelled = x.spelled;
  platform_parsed = x.platform_parsed;
  ref_parsed = x.ref_parsed;
  tag_printed = x.tag_printed;
  files = x.files;
  published = Artifacts.Published-later h e x.published;
  tagged = kept s x.tagged;
}

-- The platforms have different architectures.
abbrev pub Differ : Text → Text → Type 0
Differ p q =
    (os₁ arch₁ os₂ arch₂ : Text)
    → parse_platform p ≡ ok (os₁, arch₁)
    → parse_platform q ≡ ok (os₂, arch₂)
    → arch₁ ≢ arch₂

abbrev pub AllDiffer : List Text → Type 0
AllDiffer [] = Unit
AllDiffer (p ∷ ps) = All (Differ p) ps × AllDiffer ps
