-- ===== src/Build/Pipeline.antt =====
-- `Build` of cmd/cloud-boot/build/build.go.
use uki.Base.{length, String, Text, ascii, is_empty, List, [], ◌∷◌, ◌&&◌, not, if◌then◌else◌}
use uki.FilePath
use uki.Uki
use uki.Effects.{
  Exec, Env, text, int, pos, log, errorf, pure, wrapping, replacing, ignoring, deferring, ◌>>=◌,
  ◌>>◌, perform, look_path, mkdir_temp, mkdir_all, remove_all, read_file,
}
use uki.Build.Opts.{Opts}
use uki.Build.Cmdline.{build_cmdline}
use uki.Build.Init.{build_init}
use uki.Build.Initramfs.{build_initramfs}
use uki.Build.Images.{append_bytes, build_esp, build_iso}

module _ ⦃env : Env⦄ where
  -- The loop over the required tools.
  unfoldable pub require_tools : List Text → Exec (Unit {0})
  require_tools [] = pure tt
  require_tools (t ∷ tools) = do
    replacing (errorf "required tool %q not in PATH" (t ∷ [])) (perform (look_path t))
    require_tools tools

  -- `wd`: the given directory, or a new temporary one.
  unfoldable pub work_dir : Text → Exec Text
  work_dir given =
      if is_empty given
      then perform (mkdir_temp (ascii "cloud-boot-build-"))
      else do perform (mkdir_all given 0o755); pure given

  -- A file that is embedded if its flag was given, and its size logged.
  unfoldable pub read_optional : String → String → Text → Exec Text
  read_optional failure message path = if is_empty path then pure [] else do
    content ← wrapping failure [] (perform (read_file path))
    log message (int (pos (length content)) ∷ [])
    pure content

  unfoldable pub append_userspace : Text → Text → Exec (Unit {0})
  append_userspace initramfs cpio = if is_empty cpio then pure tt else do
    wrapping "append zfs userspace cpio: %w" [] (append_bytes initramfs cpio)
    log "appended ZFS userspace bundle from %s" (text cpio ∷ [])

  -- `Build`, from the work directory on.
  unfoldable pub assemble : Opts → Text → Exec (Unit {0})
  assemble o wd = do
    let init_bin = FilePath.join (wd ∷ ascii "cloud-boot-init" ∷ [])
    build_init init_bin o.arch.go_arch
    cosign_pem ←
        read_optional "read cosign key: %w" "embedding cosign public key (%d B) at /etc/cosign.pub"
          o.cosign_key
    plan_hcl ←
        read_optional "read plan file: %w" "embedding plan (%d B) at /etc/cloud-boot/plan.hcl"
          o.plan_file
    let initramfs = FilePath.join (wd ∷ ascii "initramfs.cpio.gz" ∷ [])
    build_initramfs init_bin initramfs cosign_pem plan_hcl
    append_userspace initramfs o.zfs_userspace_cpio
    let full_cmd = build_cmdline o
    log "cmdline: %s" (text full_cmd ∷ [])
    let uki_path = FilePath.join (wd ∷ o.arch.efi_name ∷ [])
    Uki.build
        (record {
          stub = o.stub;
          linux = o.kernel;
          initrd = initramfs;
          cmdline = full_cmd;
          os_rel = [];
          uname = o.uname;
        })
        uki_path
    let esp = FilePath.join (wd ∷ ascii "efiboot.img" ∷ [])
    build_esp uki_path o.arch.efi_name esp
    build_iso esp o.out
    log "built %s (arch=%s, %s)" (text o.out ∷ text o.arch.go_arch ∷ text o.arch.efi_name ∷ [])

  -- `Build`
  unfoldable pub build : Opts → Exec (Unit {0})
  build o = do
    require_tools
        (ascii "go" ∷ ascii "mformat" ∷ ascii "mmd" ∷ ascii "mcopy" ∷ ascii "xorriso" ∷ [])
    wd ← work_dir o.work_dir
    log "workdir: %s (arch=%s)" (text wd ∷ text o.arch.go_arch ∷ [])
    if not o.keep && is_empty o.work_dir
        then deferring (ignoring (perform (remove_all wd))) (assemble o wd)
        else assemble o wd
