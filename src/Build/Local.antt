-- ===== src/Build/Local.antt =====
-- No part of the build talks to a registry.
use uki.Base.{Option-cases, inl, inr, ℕ, Text, String, List, [], ◌∷◌}
use uki.Uki
use uki.Effects.{Env, Handle}
use uki.Effects.Local.{IsLocal}
use uki.Effects.Only.{Only-pure, Only-bind, Only-if}
use uki.Effects.Only.Calls.{only}
use uki.Build.Opts.{Opts}
use uki.Build.Init.{locate_init_module, build_init}
use uki.Build.Initramfs.{
  write_dirs, write_key, write_plan, write_entries, write_compressed, build_initramfs,
}
use uki.Build.Images.{run, truncate, append_bytes, build_esp, build_iso}
use uki.Build.Pipeline.{require_tools, read_optional, append_userspace, assemble, work_dir, build}
use uki.Build.Opts.{ArchProfile, find_profile, arch_profiles}
use uki.Build.Stub.{first_stub, default_stub}
use uki.Build.Command
use uki.Build.Command.{Flags, run_for}

module _ ⦃env : Env⦄ where
  IsLocal-build_init : (out goarch : Text) → IsLocal (build_init out goarch)
  unfolding build_init locate_init_module
  IsLocal-build_init out goarch = search only depth 12

  IsLocal-truncate : (p : Text) (n : ℕ) → IsLocal (truncate p n)
  unfolding truncate
  IsLocal-truncate p n = search only depth 12

  IsLocal-build_esp : (efi name out : Text) → IsLocal (build_esp efi name out)
  unfolding build_esp run
  IsLocal-build_esp efi name out = search (only, IsLocal-truncate) depth 12

  IsLocal-build_iso : (esp out : Text) → IsLocal (build_iso esp out)
  unfolding build_iso run
  IsLocal-build_iso esp out = search only depth 12

  pub IsLocal-append_bytes : (dst src : Text) → IsLocal (append_bytes dst src)
  unfolding append_bytes
  IsLocal-append_bytes dst src = search only depth 12

  IsLocal-write_dirs : (w : Handle) (ds : List Text) → IsLocal (write_dirs w ds)
  unfolding write_dirs
  IsLocal-write_dirs w [] = Only-pure tt
  IsLocal-write_dirs w (d ∷ ds) = Only-bind _ _ (search only) (λ _. IsLocal-write_dirs w ds)

  IsLocal-write_entries :
      (w : Handle) (init pem hcl : Text) → IsLocal (write_entries w init pem hcl)
  unfolding write_entries write_key write_plan
  IsLocal-write_entries w init pem hcl = search (only, IsLocal-write_dirs) depth 16

  pub IsLocal-build_initramfs : (bin out pem hcl : Text) → IsLocal (build_initramfs bin out pem hcl)
  unfolding build_initramfs write_compressed
  IsLocal-build_initramfs bin out pem hcl = search (only, IsLocal-write_entries) depth 16

  IsLocal-uki : (s : Uki.Sections) (out : Text) → IsLocal (Uki.build s out)
  unfolding Uki.build
  IsLocal-uki s out = search only depth 12

  IsLocal-read_optional :
      (failure message : String) (p : Text) → IsLocal (read_optional failure message p)
  unfolding read_optional
  IsLocal-read_optional failure message p = search only depth 12

  IsLocal-append_userspace : (a b : Text) → IsLocal (append_userspace a b)
  unfolding append_userspace
  IsLocal-append_userspace a b = search (only, IsLocal-append_bytes) depth 12

  pub IsLocal-assemble : (o : Opts) (wd : Text) → IsLocal (assemble o wd)
  unfolding assemble
  IsLocal-assemble o wd =
      search
        (
          only, IsLocal-build_init, IsLocal-read_optional, IsLocal-build_initramfs,
          IsLocal-append_userspace, IsLocal-uki, IsLocal-build_esp, IsLocal-build_iso,
        )
        depth 16

  pub IsLocal-require_tools : (tools : List Text) → IsLocal (require_tools tools)
  unfolding require_tools
  IsLocal-require_tools [] = Only-pure tt
  IsLocal-require_tools (t ∷ tools) = Only-bind _ _ (search only) (λ _. IsLocal-require_tools tools)

  pub IsLocal-work_dir : (given : Text) → IsLocal (work_dir given)
  unfolding work_dir
  IsLocal-work_dir given = search only depth 9

  pub IsLocal-build : (o : Opts) → IsLocal (build o)
  unfolding build
  IsLocal-build o =
      search (only, IsLocal-require_tools, IsLocal-work_dir, IsLocal-assemble) depth 12

  IsLocal-first_stub : (stub_name : Text) (roots : List Text) → IsLocal (first_stub stub_name roots)
  unfolding first_stub
  IsLocal-first_stub stub_name [] = Only-pure []
  IsLocal-first_stub stub_name (root ∷ roots) =
      Only-bind _ _ (search only)
        (λ found. Only-if found _ _ (Only-pure _) (IsLocal-first_stub stub_name roots))

  IsLocal-run_for : (f : Flags) (prof : ArchProfile) → IsLocal (run_for f prof)
  unfolding run_for default_stub
  IsLocal-run_for f prof = search (only, IsLocal-first_stub, IsLocal-build) depth 16

  -- `cloud-boot build` makes local calls only.
  pub IsLocal-run : (f : Flags) → IsLocal (Command.run f)
  unfolding Command.run
  IsLocal-run f = elim (Option-cases (find_profile f.arch arch_profiles)) [
    | inl unknown ↦ rw (unknown, Command.run) (search only depth 9)
    | inr (prof, known) ↦ rw (known, Command.run) (IsLocal-run_for f prof)
  ]
