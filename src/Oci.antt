-- ===== src/Oci.antt =====
-- The values of github.com/cloud-boot/init/pkg/oci and of the OCI image specification, as far as
-- cmd/cloud-boot/push reads or sets their fields. Neither package is in the repository: what
-- they compute is a parameter (`Effects.Env`), and only the shapes stand here.
use uki.Base.{ℕ, Text, Option, List}

-- `oci.Ref`, by the fields that the source reads.
pub record Ref : Type 0 where
  pub scheme : Text
  pub host : Text
  pub repo : Text
  pub reference : Text

-- `ocispec.Platform`
pub record Platform : Type 0 where
  pub os : Text
  pub architecture : Text

-- `ocispec.Descriptor`. `rest` stands for the fields that the source never names.
pub record Descriptor : Type 0 where
  pub media_type : Text
  pub digest : Text
  pub size : ℕ
  pub annotations : List (Text × Text)
  pub platform : Option Platform
  pub rest : Text

-- `ocispec.Manifest`
pub record Manifest : Type 0 where
  pub schema_version : ℕ
  pub media_type : Text
  pub config : Descriptor
  pub layers : List Descriptor

-- `ocispec.Index`
pub record Index : Type 0 where
  pub schema_version : ℕ
  pub media_type : Text
  pub manifests : List Descriptor

-- The constants of both packages that the source names.
pub record MediaTypes : Type 0 where
  pub config : Text
  pub plan : Text
  pub kernel : Text
  pub initrd : Text
  pub modules : Text
  pub modloop : Text
  pub apkovl : Text
  pub squashfs : Text
  pub cmdline : Text
  pub image_manifest : Text
  pub image_index : Text
  pub annotation_title : Text
