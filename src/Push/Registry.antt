-- ===== src/Push/Registry.antt =====
-- The calls of `oci.Client` that the push commands make, and what they print at the end.
use uki.Base.{ℕ, Text, ascii, List, [], ◌++◌, none}
use uki.Oci.{Ref, Descriptor}

-- A descriptor whose other fields have their zero values.
abbrev pub descriptor : Text → Text → ℕ → List (Text × Text) → Descriptor
descriptor media_type digest size annotations = record {
  media_type = media_type;
  digest = digest;
  size = size;
  annotations = annotations;
  platform = none;
  rest = [];
}

-- `fmt.Printf("%s://%s/%s@%s\n", …)`
unfoldable pub pushed_line : Ref → Text → Text
unfolding ascii
pushed_line ref digest =
    ref.scheme
    ++ ascii "://"
    ++ ref.host
    ++ ascii "/"
    ++ ref.repo
    ++ ascii "@"
    ++ digest
    ++ ascii "\n"
