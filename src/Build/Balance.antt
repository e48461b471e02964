-- ===== src/Build/Balance.antt =====
-- The files and the temporary directories of each part of the build.
use uki.Base.{ℕ, Text, String, List, [], ◌∷◌}
use uki.Uki
use uki.Effects.{Env, Handle}
use uki.Effects.Resources.{IsBalanced, IsBalanced-pure, IsBalanced-bind}
use uki.Effects.Resources.Quiet.{balanced}
use uki.Build.Opts.{Opts}
use uki.Build.Init.{locate_init_module, build_init}
use uki.Build.Initramfs.{
  write_dirs, write_key, write_plan, write_entries, write_compressed, build_initramfs,
}
use uki.Build.Images.{run, truncate, append_bytes, build_esp, build_iso}
use uki.Build.Pipeline.{require_tools, read_optional, append_userspace, assemble}

module _ ⦃env : Env⦄ where
  IsBalanced-build_init : (out goarch : Text) → IsBalanced (build_init out goarch)
  unfolding build_init locate_init_module
  IsBalanced-build_init out goarch = search balanced depth 12

  IsBalanced-truncate : (p : Text) (n : ℕ) → IsBalanced (truncate p n)
  unfolding truncate
  IsBalanced-truncate p n = search balanced depth 12

  IsBalanced-build_esp : (efi name out : Text) → IsBalanced (build_esp efi name out)
  unfolding build_esp run
  IsBalanced-build_esp efi name out = search (balanced, IsBalanced-truncate) depth 12

  IsBalanced-build_iso : (esp out : Text) → IsBalanced (build_iso esp out)
  unfolding build_iso run
  IsBalanced-build_iso esp out = search balanced depth 12

  pub IsBalanced-append_bytes : (dst src : Text) → IsBalanced (append_bytes dst src)
  unfolding append_bytes
  IsBalanced-append_bytes dst src = search balanced depth 12

  IsBalanced-write_dirs : (w : Handle) (ds : List Text) → IsBalanced (write_dirs w ds)
  unfolding write_dirs
  IsBalanced-write_dirs w [] = IsBalanced-pure tt
  IsBalanced-write_dirs w (d ∷ ds) =
      IsBalanced-bind _ _ (search balanced) (λ _. IsBalanced-write_dirs w ds)

  IsBalanced-write_entries :
      (w : Handle) (init pem hcl : Text) → IsBalanced (write_entries w init pem hcl)
  unfolding write_entries write_key write_plan
  IsBalanced-write_entries w init pem hcl = search (balanced, IsBalanced-write_dirs) depth 16

  IsBalanced-build_initramfs :
      (bin out pem hcl : Text) → IsBalanced (build_initramfs bin out pem hcl)
  unfolding build_initramfs write_compressed
  IsBalanced-build_initramfs bin out pem hcl = search (balanced, IsBalanced-write_entries) depth 16

  IsBalanced-uki : (s : Uki.Sections) (out : Text) → IsBalanced (Uki.build s out)
  unfolding Uki.build
  IsBalanced-uki s out = search balanced depth 12

  IsBalanced-read_optional :
      (failure message : String) (p : Text) → IsBalanced (read_optional failure message p)
  unfolding read_optional
  IsBalanced-read_optional failure message p = search balanced depth 12

  IsBalanced-append_userspace : (a b : Text) → IsBalanced (append_userspace a b)
  unfolding append_userspace
  IsBalanced-append_userspace a b = search (balanced, IsBalanced-append_bytes) depth 12

  pub IsBalanced-assemble : (o : Opts) (wd : Text) → IsBalanced (assemble o wd)
  unfolding assemble
  IsBalanced-assemble o wd =
      search
        (
          balanced, IsBalanced-build_init, IsBalanced-read_optional, IsBalanced-build_initramfs,
          IsBalanced-append_userspace, IsBalanced-uki, IsBalanced-build_esp, IsBalanced-build_iso,
        )
        depth 16

  pub IsBalanced-require_tools : (tools : List Text) → IsBalanced (require_tools tools)
  unfolding require_tools
  IsBalanced-require_tools [] = IsBalanced-pure tt
  IsBalanced-require_tools (t ∷ tools) =
      IsBalanced-bind _ _ (search balanced) (λ _. IsBalanced-require_tools tools)
