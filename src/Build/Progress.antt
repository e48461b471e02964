-- ===== src/Build/Progress.antt =====
-- The order of what `Build` of cmd/cloud-boot/build/build.go does, as a step relation.
pub mod Steps
pub mod Whole
use Prim.Native.Nat.{◌+◌}
use uki.Base.{
  ℕ, Text, ascii, is_empty, is_set, Bool, List, [], ◌∷◌, ◌++◌, ◌≡◌, true, false, ◌⊎◌, ◌<◌,
}
use uki.FilePath
use uki.Effects.{
  Env, Call, Event, History, ok, err, Error, run_in, run_command, write_file, read_file, mkdir_temp,
  stat,
}
use uki.Effects.Log.{Occurs}
use uki.Uki.{Sections, sections_of}
use uki.Build.Opts.{Opts}
use uki.Build.Cmdline.{build_cmdline}
use uki.Build.Init.{go_arguments}
use uki.Build.Images.{readme_text, xorriso_arguments}

-- The call runs no program, and writes no whole file.
abbrev pub IsQuiet : Call → Type 0
IsQuiet (run_in _ _ _ _) = ⊥
IsQuiet (run_command _ _) = ⊥
IsQuiet (write_file _ _ _) = ⊥
IsQuiet _ = Unit

abbrev pub file_in : Text → Text → Text
file_in dir name = FilePath.join (dir ∷ name ∷ [])

abbrev pub sections : Opts → Text → Sections
sections o wd = record {
  stub = o.stub;
  linux = o.kernel;
  initrd = file_in wd (ascii "initramfs.cpio.gz");
  cmdline = build_cmdline o;
  os_rel = [];
  uname = o.uname;
}

-- The work directory is the one that is given, or a new one.
abbrev pub IsWorkDir : Opts → Text → History → Type 0
IsWorkDir o wd h =
    (is_empty o.work_dir ≡ false) × (wd ≡ o.work_dir)
    ⊎ (is_empty o.work_dir ≡ true) × Occurs (mkdir_temp (ascii "cloud-boot-build-")) wd h

module _ ⦃env : Env⦄ where
  -- The source of the init program.
  abbrev pub IsInitDir : Text → History → Type 0
  IsInitDir dir h =
      let v = env.getenv (ascii "CLOUD_BOOT_INIT_DIR") in
      (is_set v ≡ true) × (dir ≡ v)
      ⊎ (is_set v ≡ false)
        × (dir ≡ FilePath.clean (ascii "../init"))
        × ((is_dir : Bool) × Occurs (stat (file_in dir (ascii "go.mod"))) is_dir h)

  -- `Progress o wd h0 n h`: between the histories `h0` and `h`, the first `n` of eight steps were
  -- done, in their order, once each. Between them are calls that are quiet, and calls that failed.
  pub data Progress (o : Opts) (wd : Text) (h0 : History) : ℕ → History → Type 0 where
    begun : Progress o wd h0 0 h0
    quiet :
        {n : ℕ} {h : History} {e : Event}
        → IsQuiet e.call
        → Progress o wd h0 n h
        → Progress o wd h0 n (e ∷ h)
    failed :
        {n : ℕ} {h : History} {c : Call} {e : Error}
        → Progress o wd h0 n h
        → Progress o wd h0 n (record { call = c; reply = err e } ∷ h)
    compiled :
        {h : History} (init_dir : Text)
        → IsWorkDir o wd h
        → IsInitDir init_dir h
        → Progress o wd h0 0 h
        → Progress o wd h0 1 (
            record {
              call =
                  run_in
                    (ascii "go")
                    (go_arguments (file_in wd (ascii "cloud-boot-init")))
                    init_dir
                    (env.environ
                      ++ ascii "CGO_ENABLED=0"
                        ∷ ascii "GOOS=linux"
                        ∷ (ascii "GOARCH=" ++ o.arch.go_arch)
                        ∷ []);
              reply = ok tt;
            }
            ∷ h)
    linked :
        {h : History} (stub linux initrd image : Text)
        → Occurs (read_file o.stub) stub h
        → Occurs (read_file o.kernel) linux h
        → Occurs (read_file (file_in wd (ascii "initramfs.cpio.gz"))) initrd h
        → env.append_sections stub (sections_of (sections o wd) linux initrd) ≡ ok image
        → Progress o wd h0 1 h
        → Progress o wd h0 2 (
            record { call = write_file (file_in wd o.arch.efi_name) image 0o644; reply = ok tt }
            ∷ h)
    formatted :
        {h : History}
        → Progress o wd h0 2 h
        → Progress o wd h0 3 (
            record {
              call =
                  run_command
                    (ascii "mformat")
                    (ascii "-i" ∷ file_in wd (ascii "efiboot.img") ∷ ascii "-F" ∷ ascii "::" ∷ []);
              reply = ok tt;
            }
            ∷ h)
    made_efi :
        {h : History}
        → Progress o wd h0 3 h
        → Progress o wd h0 4 (
            record {
              call =
                  run_command
                    (ascii "mmd")
                    (ascii "-i" ∷ file_in wd (ascii "efiboot.img") ∷ ascii "::/EFI" ∷ []);
              reply = ok tt;
            }
            ∷ h)
    made_boot :
        {h : History}
        → Progress o wd h0 4 h
        → Progress o wd h0 5 (
            record {
              call =
                  run_command
                    (ascii "mmd")
                    (ascii "-i" ∷ file_in wd (ascii "efiboot.img") ∷ ascii "::/EFI/BOOT" ∷ []);
              reply = ok tt;
            }
            ∷ h)
    copied :
        {h : History}
        → Progress o wd h0 5 h
        → Progress o wd h0 6 (
            record {
              call = run_command (ascii "mcopy") (
                  ascii "-i"
                  ∷ file_in wd (ascii "efiboot.img")
                  ∷ file_in wd o.arch.efi_name
                  ∷ (ascii "::/EFI/BOOT/" ++ o.arch.efi_name)
                  ∷ []);
              reply = ok tt;
            }
            ∷ h)
    staged :
        {h : History} (stage : Text)
        → Occurs (mkdir_temp (ascii "iso-stage-")) stage h
        → Progress o wd h0 6 h
        → Progress o wd h0 7 (
            record {
              call = write_file (file_in stage (ascii "README.txt")) readme_text 0o644;
              reply = ok tt;
            }
            ∷ h)
    wrote_iso :
        {h : History} (stage : Text)
        → Occurs (write_file (file_in stage (ascii "README.txt")) readme_text 0o644) tt h
        → Progress o wd h0 7 h
        → Progress o wd h0 8 (
            record {
              call =
                  run_command
                    (ascii "xorriso")
                    (xorriso_arguments o.out (file_in wd (ascii "efiboot.img")) stage);
              reply = ok tt;
            }
            ∷ h)
