-- ===== src/Build/Initramfs.antt =====
-- `buildInitramfs` of cmd/cloud-boot/build/build.go.
pub mod Entries
pub mod Stored
pub mod Whole
use uki.Base.{Text, ascii, is_empty, List, [], ◌∷◌, if◌then◌else◌}
use uki.Effects.{
  Exec, Env, text, log, Handle, pure, with_file, ◌>>=◌, ◌>>◌, perform, read_file, buffer,
  buffer_bytes, cpio_writer, cpio_dir, cpio_nod, cpio_file, cpio_symlink, cpio_close, create, close,
  gzip_writer, gzip_write, gzip_close,
}

-- The directories of the archive.
unfoldable pub directories : List Text
directories =
    ascii "dev"
    ∷ ascii "proc"
    ∷ ascii "sys"
    ∷ ascii "run"
    ∷ ascii "etc"
    ∷ ascii "tmp"
    ∷ ascii "sbin"
    ∷ ascii "bin"
    ∷ []

module _ ⦃env : Env⦄ where
  unfoldable pub write_dirs : Handle → List Text → Exec (Unit {0})
  write_dirs w [] = pure tt
  write_dirs w (d ∷ ds) = perform (cpio_dir w d 0o755) >> write_dirs w ds

  -- The key, if it is not empty.
  unfoldable pub write_key : Handle → Text → Exec (Unit {0})
  write_key w cosign_pem =
      if is_empty cosign_pem
      then pure tt
      else perform (cpio_file w (ascii "etc/cosign.pub") 0o100644 cosign_pem)

  -- The plan, if it is not empty.
  unfoldable pub write_plan : Handle → Text → Exec (Unit {0})
  write_plan w plan_hcl = if is_empty plan_hcl then pure tt else do
    perform (cpio_dir w (ascii "etc/cloud-boot") 0o755)
    perform (cpio_file w (ascii "etc/cloud-boot/plan.hcl") 0o100644 plan_hcl)

  -- The entries, up to `w.Close`.
  unfoldable pub write_entries : Handle → Text → Text → Text → Exec (Unit {0})
  write_entries w init cosign_pem plan_hcl = do
    write_dirs w directories
    perform (cpio_nod w (ascii "dev/console") 0o020600 5 1)
    perform (cpio_nod w (ascii "dev/null") 0o020666 1 3)
    perform (cpio_file w (ascii "init") 0o100755 init)
    perform (cpio_symlink w (ascii "sbin/init") (ascii "/init") 0o777)
    write_key w cosign_pem
    write_plan w plan_hcl
    perform (cpio_close w)

  -- The compressed file, from the buffer.
  unfoldable pub write_compressed : Text → Handle → Exec (Unit {0})
  write_compressed out raw = with_file (perform (create out)) (λ f. do
    gz ← perform (gzip_writer f)
    bytes ← perform (buffer_bytes raw)
    perform (gzip_write gz bytes)
    perform (gzip_close gz))

  -- `buildInitramfs`
  unfoldable pub build_initramfs : Text → Text → Text → Text → Exec (Unit {0})
  build_initramfs init_bin out cosign_pem plan_hcl = do
    log "packing initramfs -> %s" (text out ∷ [])
    init ← perform (read_file init_bin)
    raw ← perform buffer
    w ← perform (cpio_writer raw)
    write_entries w init cosign_pem plan_hcl
    write_compressed out raw
