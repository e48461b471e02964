-- ===== src/Build/Costs.antt =====
-- How long `Build` of cmd/cloud-boot/build/build.go runs.
use uki.Base.{
  ◌+◌, ◌≤◌, Text, String, List, [], ◌∷◌, ascii, is_empty, is_set, not, ◌&&◌, length, arith,
}
use uki.FilePath
use uki.Uki
use uki.Effects.{
  Env, Handle, History, look_path, mkdir_temp, mkdir_all, remove_all, read_file, write_file, stat,
  create, open_read, open_append, truncate_to, copy, run_command, run_in, buffer, buffer_bytes,
  gzip_writer, gzip_write, gzip_close, cpio_writer, cpio_dir, cpio_nod, cpio_file, cpio_symlink,
  cpio_close,
}
use uki.Effects.Costs.{
  Costs, Costs-weaken, Costs-pure, Costs-fail, Costs-lift, Costs-if, Costs-unless, Costs-bind,
  Costs-wrapping, Costs-replacing, Costs-succeeds, Costs-ignoring, Costs-deferring, Costs-perform,
  Costs-log, Costs-with_file, Costs-with_temp,
}
use uki.Build.Opts.{Opts}
use uki.Build.Init.{locate_init_module, build_init}
use uki.Build.Initramfs.{
  directories, write_dirs, write_key, write_plan, write_entries, write_compressed, build_initramfs,
}
use uki.Build.Images.{
  run, truncate, append_bytes, build_esp, build_iso, readme_text, xorriso_arguments,
}
use uki.Build.Pipeline.{require_tools, work_dir, read_optional, append_userspace, assemble, build}

module _ ⦃env : Env⦄ where
  Costs-require_tools : (tools : List Text) → Costs (length tools) (require_tools tools)
  unfolding require_tools
  Costs-require_tools [] = Costs-pure tt
  Costs-require_tools (t ∷ tools) = Costs-weaken (1 + length tools) _ _ (omega arith) (
      Costs-bind 1 (length tools) _ _ (Costs-replacing _ _ (Costs-perform (look_path t)))
        (λ _. Costs-require_tools tools))

  Costs-work_dir : (given : Text) → Costs 1 (work_dir given)
  unfolding work_dir
  Costs-work_dir given =
      Costs-if 1 (is_empty given) _ _ (Costs-perform (mkdir_temp (ascii "cloud-boot-build-")))
        (Costs-bind 1 0 _ _ (Costs-perform (mkdir_all given 0o755)) (λ _. Costs-pure given))

  Costs-read_optional :
      (failure message : String) (path : Text) → Costs 2 (read_optional failure message path)
  unfolding read_optional
  Costs-read_optional failure message path = Costs-unless 2 (is_empty path) _ _ (Costs-pure []) (
      Costs-bind 1 1 _ _ (Costs-wrapping _ _ _ (Costs-perform (read_file path)))
        (λ content. Costs-bind 1 0 _ _ (Costs-log _ _) (λ _. Costs-pure content)))

  Costs-locate_init_module : Costs 1 locate_init_module
  unfolding locate_init_module
  Costs-locate_init_module =
      Costs-unless 1 (is_set (env.getenv (ascii "CLOUD_BOOT_INIT_DIR"))) _ _ (Costs-pure _) (
        Costs-bind 1 0 _ _
          (Costs-succeeds _ (
            Costs-perform
              (stat (FilePath.join (FilePath.clean (ascii "../init") ∷ ascii "go.mod" ∷ [])))))
          (λ found. Costs-if 0 found _ _ (Costs-pure _) (Costs-fail _)))

  Costs-build_init : (out goarch : Text) → Costs 3 (build_init out goarch)
  unfolding build_init
  Costs-build_init out goarch =
      Costs-bind 1 2 _ _ (Costs-log _ _)
        (λ _. Costs-bind 1 1 _ _ Costs-locate_init_module (λ dir. Costs-perform (run_in _ _ dir _)))

  Costs-write_dirs : (w : Handle) (ds : List Text) → Costs (length ds) (write_dirs w ds)
  unfolding write_dirs
  Costs-write_dirs w [] = Costs-pure tt
  Costs-write_dirs w (d ∷ ds) = Costs-weaken (1 + length ds) _ _ (omega arith) (
      Costs-bind 1 (length ds) _ _ (Costs-perform (cpio_dir w d 0o755))
        (λ _. Costs-write_dirs w ds))

  Costs-write_key : (w : Handle) (pem : Text) → Costs 1 (write_key w pem)
  unfolding write_key
  Costs-write_key w pem =
      Costs-unless 1 (is_empty pem) _ _ (Costs-pure tt) (Costs-perform (cpio_file w _ 0o100644 pem))

  Costs-write_plan : (w : Handle) (hcl : Text) → Costs 2 (write_plan w hcl)
  unfolding write_plan
  Costs-write_plan w hcl = Costs-unless 2 (is_empty hcl) _ _ (Costs-pure tt) (
      Costs-bind 1 1 _ _ (Costs-perform (cpio_dir w _ 0o755))
        (λ _. Costs-perform (cpio_file w _ 0o100644 hcl)))

  Costs-write_entries : (w : Handle) (init pem hcl : Text) → Costs 16 (write_entries w init pem hcl)
  unfolding write_entries directories
  Costs-write_entries w init pem hcl = Costs-bind 8 8 _ _ (Costs-write_dirs w directories) (λ _.
      Costs-bind 1 7 _ _ (Costs-perform (cpio_nod w _ 0o020600 5 1)) (λ _.
        Costs-bind 1 6 _ _ (Costs-perform (cpio_nod w _ 0o020666 1 3)) (λ _.
          Costs-bind 1 5 _ _ (Costs-perform (cpio_file w _ 0o100755 init)) (λ _.
            Costs-bind 1 4 _ _ (Costs-perform (cpio_symlink w _ _ 0o777)) (λ _.
              Costs-bind 1 3 _ _ (Costs-write_key w pem) (λ _.
                Costs-bind 2 1 _ _ (Costs-write_plan w hcl)
                  (λ _. Costs-perform (cpio_close w))))))))

  Costs-write_compressed : (out : Text) (raw : Handle) → Costs 6 (write_compressed out raw)
  unfolding write_compressed
  Costs-write_compressed out raw = Costs-with_file 1 4 _ _ (Costs-perform (create out)) (λ f.
      Costs-bind 1 3 _ _ (Costs-perform (gzip_writer f)) (λ gz.
        Costs-bind 1 2 _ _ (Costs-perform (buffer_bytes raw)) (λ bytes.
          Costs-bind 1 1 _ _ (Costs-perform (gzip_write gz bytes))
            (λ _. Costs-perform (gzip_close gz)))))

  Costs-build_initramfs :
      (init_bin out pem hcl : Text) → Costs 26 (build_initramfs init_bin out pem hcl)
  unfolding build_initramfs
  Costs-build_initramfs init_bin out pem hcl = Costs-bind 1 25 _ _ (Costs-log _ _) (λ _.
      Costs-bind 1 24 _ _ (Costs-perform (read_file init_bin)) (λ init.
        Costs-bind 1 23 _ _ (Costs-perform buffer) (λ raw.
          Costs-bind 1 22 _ _ (Costs-perform (cpio_writer raw)) (λ w.
            Costs-bind 16 6 _ _ (Costs-write_entries w init pem hcl)
              (λ _. Costs-write_compressed out raw)))))

  Costs-append_userspace : (initramfs cpio : Text) → Costs 6 (append_userspace initramfs cpio)
  unfolding append_userspace append_bytes
  Costs-append_userspace initramfs cpio = Costs-unless 6 (is_empty cpio) _ _ (Costs-pure tt) (
      Costs-bind 5 1 _ _
        (Costs-wrapping _ _ _ (
          Costs-with_file 1 3 _ _ (Costs-perform (open_read cpio)) (λ input.
            Costs-with_file 1 1 _ _ (Costs-perform (open_append initramfs))
              (λ output. Costs-perform (copy output input)))))
        (λ _. Costs-log _ _))

  Costs-uki : (s : Uki.Sections) (out : Text) → Costs 4 (Uki.build s out)
  unfolding Uki.build
  Costs-uki s out =
      Costs-bind 1 3 _ _ (Costs-wrapping _ _ _ (Costs-perform (read_file s.stub))) (λ stub.
        Costs-bind 1 2 _ _ (Costs-wrapping _ _ _ (Costs-perform (read_file s.linux))) (λ linux.
          Costs-bind 1 1 _ _ (Costs-wrapping _ _ _ (Costs-perform (read_file s.initrd))) (λ initrd.
            Costs-bind 0 1 _ _ (Costs-wrapping _ _ _ (Costs-lift _))
              (λ image. Costs-perform (write_file out image 0o644)))))

  Costs-build_esp : (efi name out : Text) → Costs 8 (build_esp efi name out)
  unfolding build_esp run truncate
  Costs-build_esp efi name out = Costs-bind 1 7 _ _ (Costs-log _ _) (λ _.
      Costs-bind 3 4 _ _
        (Costs-with_file 1 1 _ _ (Costs-perform (create out))
          (λ f. Costs-perform (truncate_to f _)))
        (λ _. Costs-bind 1 3 _ _ (Costs-perform (run_command _ _)) (λ _.
          Costs-bind 1 2 _ _ (Costs-perform (run_command _ _)) (λ _.
            Costs-bind 1 1 _ _ (Costs-perform (run_command _ _))
              (λ _. Costs-perform (run_command _ _))))))

  Costs-build_iso : (esp out : Text) → Costs 6 (build_iso esp out)
  unfolding build_iso run
  Costs-build_iso esp out = Costs-bind 1 5 _ _ (Costs-log _ _) (λ _.
      Costs-bind 1 4 _ _ (Costs-wrapping _ _ _ (Costs-perform (stat esp))) (λ _.
        Costs-with_temp 2 _ _ (λ stage.
          Costs-bind 1 1 _ _
            (Costs-perform
              (write_file (FilePath.join (stage ∷ ascii "README.txt" ∷ [])) readme_text 0o644))
            (λ _. Costs-perform (run_command _ (xorriso_arguments out esp stage))))))

  Costs-assemble : (o : Opts) (wd : Text) → Costs 59 (assemble o wd)
  unfolding assemble
  Costs-assemble o wd = Costs-bind 3 56 _ _ (Costs-build_init _ _) (λ _.
      Costs-bind 2 54 _ _ (Costs-read_optional _ _ _) (λ key.
        Costs-bind 2 52 _ _ (Costs-read_optional _ _ _) (λ plan.
          Costs-bind 26 26 _ _ (Costs-build_initramfs _ _ key plan) (λ _.
            Costs-bind 6 20 _ _ (Costs-append_userspace _ _) (λ _.
              Costs-bind 1 19 _ _ (Costs-log _ _) (λ _. Costs-bind 4 15 _ _ (Costs-uki _ _) (λ _.
                Costs-bind 8 7 _ _ (Costs-build_esp _ _ _)
                  (λ _. Costs-bind 6 1 _ _ (Costs-build_iso _ _) (λ _. Costs-log _ _)))))))))

  Costs-build : (o : Opts) → Costs 67 (build o)
  unfolding build
  Costs-build o = Costs-bind 5 62 _ _ (Costs-require_tools _) (λ _.
      Costs-bind 1 61 _ _ (Costs-work_dir o.work_dir) (λ wd.
        Costs-bind 1 60 _ _ (Costs-log _ _) (λ _.
          Costs-if 60 (not o.keep && is_empty o.work_dir) _ _
            (Costs-deferring 1 59 _ _ (Costs-ignoring _ (Costs-perform (remove_all wd)))
              (Costs-assemble o wd))
            (Costs-weaken 59 60 _ (omega arith) (Costs-assemble o wd)))))

-- `Build` ends, whatever the replies are, after at most 67 calls, the lines of its log included:
-- none of its steps is tried again.
pub build-bounded : ⦃env : Env⦄ (o : Opts) (h : History) → length (build o h).1 ≤ 67 + length h
build-bounded o h = (Costs-build o).at h
