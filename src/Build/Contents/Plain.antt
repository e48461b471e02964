-- ===== src/Build/Contents/Plain.antt =====
-- The parts of `Build` that write no entry of an archive.
use uki.Base.{Text, String, List, [], ◌∷◌}
use uki.Effects.{Env}
use uki.Effects.Only.{Only, Only-pure, Only-bind}
use uki.Effects.Only.Calls.{only}
use uki.Build.Init.{build_init, locate_init_module}
use uki.Build.Images.{run, truncate, append_bytes, build_esp, build_iso}
use uki.Build.Pipeline.{require_tools, read_optional, append_userspace, work_dir}
use uki.Uki
use uki.Build.Contents.{IsPlain}

module _ ⦃env : Env⦄ where
  pub IsPlain-build_esp : (efi name out : Text) → Only IsPlain (build_esp efi name out)
  unfolding build_esp run truncate
  IsPlain-build_esp efi name out = search only depth 14

  pub IsPlain-build_iso : (esp out : Text) → Only IsPlain (build_iso esp out)
  unfolding build_iso run
  IsPlain-build_iso esp out = search only depth 12

  pub IsPlain-uki : (s : Uki.Sections) (out : Text) → Only IsPlain (Uki.build s out)
  unfolding Uki.build
  IsPlain-uki s out = search only depth 12

  pub IsPlain-append_userspace : (a b : Text) → Only IsPlain (append_userspace a b)
  unfolding append_userspace append_bytes
  IsPlain-append_userspace a b = search only depth 16

  pub IsPlain-build_init : (out arch : Text) → Only IsPlain (build_init out arch)
  unfolding build_init locate_init_module
  IsPlain-build_init out arch = search only depth 12

  pub IsPlain-require_tools : (tools : List Text) → Only IsPlain (require_tools tools)
  unfolding require_tools
  IsPlain-require_tools [] = Only-pure tt
  IsPlain-require_tools (t ∷ tools) = Only-bind _ _ (search only) (λ _. IsPlain-require_tools tools)

  pub IsPlain-work_dir : (given : Text) → Only IsPlain (work_dir given)
  unfolding work_dir
  IsPlain-work_dir given = search only depth 9

  pub IsPlain-read_optional :
      (failure message : String) (path : Text) → Only IsPlain (read_optional failure message path)
  unfolding read_optional
  IsPlain-read_optional failure message path = search only depth 12
