-- ===== src/Build/Images.antt =====
-- The images of cmd/cloud-boot/build/build.go: the EFI system partition and the ISO.
use Prim.Native.Nat.{◌*◌}
use uki.Base.{ℕ, Text, ascii, List, [], ◌∷◌, ◌++◌}
use uki.FilePath
use uki.Effects.{
  Exec, Env, text, log, wrapping, with_file, with_temp, ◌>>◌, perform, create, truncate_to,
  open_read, open_append, copy, run_command, stat, write_file,
}

-- The text of README.txt. Its dash is three bytes of UTF-8.
pub readme_text : Text
readme_text =
    ascii "cloud-boot bootable image "
    ++ (0xe2 ∷ 0x80 ∷ 0x94 ∷ ascii " boot files live in GPT partition 2.\n")

-- The arguments of xorriso.
pub xorriso_arguments : Text → Text → Text → List Text
xorriso_arguments out esp stage =
    ascii "-as"
    ∷ ascii "mkisofs"
    ∷ ascii "-V"
    ∷ ascii "GOPXE"
    ∷ ascii "-o"
    ∷ out
    ∷ ascii "-no-emul-boot"
    ∷ ascii "-e"
    ∷ ascii "--interval:appended_partition_2:all::"
    ∷ ascii "-append_partition"
    ∷ ascii "2"
    ∷ ascii "C12A7328-F81F-11D2-BA4B-00A0C93EC93B"
    ∷ esp
    ∷ ascii "-appended_part_as_gpt"
    ∷ stage
    ∷ []

module _ ⦃env : Env⦄ where
  -- `CmdRun`, whose output goes to the program's own.
  abbrev cmd_run : Text → List Text → Exec (Unit {0})
  cmd_run name args = perform (run_command name args)

  -- `run`
  unfoldable pub run : Text → List Text → Exec (Unit {0})
  run name args = cmd_run name args

  -- `truncate`
  unfoldable pub truncate : Text → ℕ → Exec (Unit {0})
  truncate path size = with_file (perform (create path)) (λ f. perform (truncate_to f size))

  -- `appendBytes`
  unfoldable pub append_bytes : Text → Text → Exec (Unit {0})
  append_bytes dst src =
      with_file (perform (open_read src))
        (λ input. with_file (perform (open_append dst)) (λ output. perform (copy output input)))

  -- `buildESP`
  unfoldable pub build_esp : Text → Text → Text → Exec (Unit {0})
  build_esp efi efi_name out = do
    log "creating ESP image -> %s (/EFI/BOOT/%s)" (text out ∷ text efi_name ∷ [])
    truncate out (64 * 1024 * 1024)
    run (ascii "mformat") (ascii "-i" ∷ out ∷ ascii "-F" ∷ ascii "::" ∷ [])
    run (ascii "mmd") (ascii "-i" ∷ out ∷ ascii "::/EFI" ∷ [])
    run (ascii "mmd") (ascii "-i" ∷ out ∷ ascii "::/EFI/BOOT" ∷ [])
    run (ascii "mcopy") (ascii "-i" ∷ out ∷ efi ∷ (ascii "::/EFI/BOOT/" ++ efi_name) ∷ [])

  -- `buildISO`
  unfoldable pub build_iso : Text → Text → Exec (Unit {0})
  build_iso esp out = do
    log "creating ISO -> %s (hybrid iso9660 + El Torito + GPT for Apple VZ)" (text out ∷ [])
    wrapping "esp image: %w" [] (perform (stat esp))
    with_temp (ascii "iso-stage-") (λ stage. do
      perform (write_file (FilePath.join (stage ∷ ascii "README.txt" ∷ [])) readme_text 0o644)
      run (ascii "xorriso") (xorriso_arguments out esp stage))
