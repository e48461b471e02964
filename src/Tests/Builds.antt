-- ===== src/Tests/Builds.antt =====
-- `cloud-boot build`, the UKI and the module archive, at concrete inputs.
use uki.Base.{List, ◌++◌, Text, ascii, [], ◌∷◌, ◌≡◌, ◌⊎◌, refl, true, false, is_set}
use uki.Effects.{
  pos, Env, Error, Handle, History, Call, Event, ok, err, symlink, mkdir_temp, create,
}
use uki.Effects.Hoare.{After}
use uki.Effects.Resources.{held, temp}
use uki.Build.Opts
use uki.Build.Pipeline
use uki.Build.Cleanup
use uki.Build.Cmdline
use uki.Build.Cmdline.Words
use uki.Build.Initramfs
use uki.Build.Initramfs.Whole as InitramfsWhole
use uki.Build.Command
use uki.Build.Contents
use uki.Build.Contents.Whole as ContentsWhole
use uki.Build.Command.Checks
use uki.Build.Command.Whole as CommandWhole
use uki.Build.Progress.Whole as ProgressWhole
use uki.Label
use uki.Label.Stamps
use uki.Uki
use uki.Uki.Written as UkiWritten
use uki.Push.Modpack
use uki.Push.Modpack.Mirror.Whole as ModpackMirror
use uki.Effects.Faults.{failures}
use uki.Build.Faults as BuildFaults
use uki.Base.{length, ◌+◌, ◌≤◌}
use uki.Build.Costs as BuildCosts
use uki.Push.Modpack.Costs as ModpackCosts
use uki.Push.Modpack.Faults as ModpackFaults
use uki.Tests.World.{world}

abbrev amd64 : Opts.ArchProfile
unfolding ascii
amd64 = record {
  go_arch = ascii "amd64";
  efi_name = ascii "BOOTX64.EFI";
  stub_name = ascii "linuxx64.efi.stub";
}

abbrev flags : Command.Flags
unfolding ascii
flags = record {
  arch = ascii "amd64";
  kernel = ascii "vmlinuz";
  stub = ascii "stub.efi";
  cmdline = ascii "ro";
  image = [];
  plan_ref = ascii "r/plan:1";
  plan_file = [];
  target = ascii "disk";
  extra = [];
  uname = ascii "6.6";
  out = ascii "out.iso";
  work_dir = [];
  keep = false;
  insec = true;
  verbose = false;
  cosign_key = ascii "cosign.pub";
  zfs_userspace_cpio = ascii "zfs.cpio";
}

abbrev given : Opts.Opts
unfolding Command.opts_of ascii
given = Command.opts_of flags amd64 (ascii "stub.efi")

build_succeeds : (Pipeline.build ⦃env = world⦄ given []).0 ≡ ok tt
unfolding Pipeline.build uki.Effects.◌>>=◌ Pipeline.require_tools uki.Effects.replacing
    uki.Effects.perform given Pipeline.work_dir uki.Effects.deferring Pipeline.assemble
    uki.Build.Init.build_init uki.Build.Init.locate_init_module uki.Effects.succeeds
    Pipeline.read_optional uki.Effects.wrapping Initramfs.build_initramfs Initramfs.write_entries
    Initramfs.write_dirs Initramfs.directories Initramfs.write_key Initramfs.write_plan
    Initramfs.write_compressed uki.Effects.with_file Pipeline.append_userspace
    uki.Build.Images.append_bytes Uki.build uki.Build.Images.build_esp uki.Build.Images.truncate
    uki.Build.Images.run uki.Build.Images.build_iso uki.Effects.with_temp uki.Effects.log
build_succeeds = refl

build_clean_example : held (Pipeline.build ⦃env = world⦄ given []).1 ≡ []
unfolding given
build_clean_example = Cleanup.build_clean ⦃env = world⦄ given [] refl

abbrev keeping : Opts.Opts
unfolding given
keeping = record given { keep = true }

build_kept_example :
    After
      (λ _ h. (d : Text) × (held h ≡ temp d ∷ []))
      (λ h. (held h ≡ []) ⊎ ((d : Text) × (held h ≡ temp d ∷ [])))
      (Pipeline.build ⦃env = world⦄ keeping [])
unfolding keeping given
build_kept_example = Cleanup.build_kept ⦃env = world⦄ keeping [] refl refl

build_cmdline_lem_example : Cmdline.build_cmdline given ≡ Words.spaced (Words.cmdline_words given)
build_cmdline_lem_example = Words.build_cmdline_lem given

cmdline_spelled :
    Cmdline.build_cmdline given
    ≡ ascii "ro quiet cloudboot.plan=r/plan:1 cloudboot.target=disk cloudboot.insecure=1"
unfolding Cmdline.build_cmdline ascii Cmdline.join_words Cmdline.join_onto Cmdline.cmdline_parts
    given
cmdline_spelled = refl

build_initramfs-Packed_example :
    After
      (λ _.
        InitramfsWhole.Packed ⦃env = world⦄
          (ascii "init")
          (ascii "initramfs")
          (ascii "key")
          (ascii "plan")
          [])
      (λ _. Unit {0})
      (Initramfs.build_initramfs ⦃env = world⦄
        (ascii "init")
        (ascii "initramfs")
        (ascii "key")
        (ascii "plan")
        [])
build_initramfs-Packed_example =
    InitramfsWhole.build_initramfs-Packed ⦃env = world⦄ (ascii "init") (ascii "initramfs")
      (ascii "key") (ascii "plan") []

command_checked_example :
    ((e : Error) × (Command.run ⦃env = world⦄ flags [] ≡ (err e, []))
      × ¬ ((prof : Opts.ArchProfile) × Checks.IsAccepted flags prof))
    ⊎ ((prof : Opts.ArchProfile) × Checks.IsAccepted flags prof
        × (0 + 1 ≤ length (Command.run ⦃env = world⦄ flags []).1))
command_checked_example = Checks.command_checked ⦃env = world⦄ flags []

abbrev new_labels : List Text
new_labels = ascii "root" ∷ []

label_run-stamps_example :
    After
      (λ _ h. Stamps.stamps h ≡ Stamps.requested (pos 0) (ascii "disk.raw") new_labels ++ [])
      (λ h. Stamps.stamps h ≡ [])
      (Label.run ⦃env = world⦄ (pos 0) (ascii "disk.raw") new_labels [])
label_run-stamps_example =
    Stamps.label_run-stamps ⦃env = world⦄ (pos 0) (ascii "disk.raw") new_labels []

build-Progress_example :
    After
      (λ _. ProgressWhole.Built ⦃env = world⦄ given [])
      (ProgressWhole.Unfinished ⦃env = world⦄ given [])
      (Pipeline.build ⦃env = world⦄ given [])
build-Progress_example = ProgressWhole.build-Progress ⦃env = world⦄ given []

build-Contents_example :
    After
      (λ _. Contents.Contents ⦃env = world⦄ given [])
      (λ _. Unit {0})
      (Pipeline.build ⦃env = world⦄ given [])
build-Contents_example = ContentsWhole.build-Contents ⦃env = world⦄ given []

command_run-Ran_example :
    After
      (λ _. CommandWhole.Ran ⦃env = world⦄ flags [])
      (CommandWhole.Stopped ⦃env = world⦄ flags [])
      (Command.run ⦃env = world⦄ flags [])
command_run-Ran_example = CommandWhole.command_run-Ran ⦃env = world⦄ flags []

abbrev sections : Uki.Sections
unfolding ascii
sections = record {
  stub = ascii "stub.efi";
  linux = ascii "vmlinuz";
  initrd = ascii "initramfs";
  cmdline = ascii "ro";
  os_rel = [];
  uname = ascii "6.6";
}

uki_succeeds : (Uki.build ⦃env = world⦄ sections (ascii "out.efi") []).0 ≡ ok tt
unfolding Uki.build uki.Effects.◌>>=◌ uki.Effects.wrapping uki.Effects.perform ascii sections
uki_succeeds = refl

build-Assembled_example :
    After
      (λ _. UkiWritten.Assembled ⦃env = world⦄ sections (ascii "out.efi") [])
      (λ h. UkiWritten.files h ≡ [])
      (Uki.build ⦃env = world⦄ sections (ascii "out.efi") [])
build-Assembled_example = UkiWritten.build-Assembled ⦃env = world⦄ sections (ascii "out.efi") []

pack_succeeds : (Modpack.pack_modules ⦃env = world⦄ (ascii "/m/6.6") (ascii "out.gz") []).0 ≡ ok tt
unfolding Modpack.pack_modules uki.Effects.◌>>=◌ uki.Effects.perform ascii uki.Effects.fail_if
    uki.Effects.with_file Modpack.write_archive Modpack.walk Modpack.visit_directory Modpack.visit
    Modpack.visit_regular Modpack.visit_symlink
pack_succeeds = refl

pack_modules-Packed_example :
    After
      (λ _. ModpackMirror.Packed ⦃env = world⦄ (ascii "/m/6.6") (ascii "out.gz") [])
      (λ _. Unit {0})
      (Modpack.pack_modules ⦃env = world⦄ (ascii "/m/6.6") (ascii "out.gz") [])
pack_modules-Packed_example =
    ModpackMirror.pack_modules-Packed ⦃env = world⦄ (ascii "/m/6.6") (ascii "out.gz") []

build_quiet : failures (Pipeline.build ⦃env = world⦄ given []).1 ≡ 0
unfolding Pipeline.build uki.Effects.◌>>=◌ Pipeline.require_tools uki.Effects.replacing
    uki.Effects.perform Pipeline.work_dir given uki.Effects.deferring uki.Effects.ignoring
    Pipeline.assemble uki.Build.Init.build_init uki.Build.Init.locate_init_module
    uki.Effects.succeeds Pipeline.read_optional uki.Effects.wrapping Initramfs.build_initramfs
    Initramfs.write_entries Initramfs.write_dirs Initramfs.directories Initramfs.write_key
    Initramfs.write_plan native.Mathlib.Decide.ℕ_discrete uki.Base.Text-discrete ascii
    Cmdline.build_cmdline Cmdline.cmdline_parts Cmdline.join_onto Cmdline.join_words Command.opts_of
    uki.Build.Images.append_bytes uki.Build.Images.build_esp uki.Build.Images.build_iso
    uki.Build.Images.run uki.Build.Images.truncate Initramfs.write_compressed
    Pipeline.append_userspace uki.Effects.fail uki.Effects.lift uki.Effects.pure
    uki.Effects.with_file uki.Effects.with_temp uki.FilePath.clean uki.FilePath.elements
    uki.FilePath.join uki.FilePath.with_slashes amd64 flags Uki.build uki.Effects.log
build_quiet = refl

build_complete_example :
    ((Pipeline.build ⦃env = world⦄ given []).0 ≡ ok tt)
    ⊎ BuildFaults.Refused ⦃env = world⦄ given (Pipeline.build ⦃env = world⦄ given []).1
build_complete_example = BuildFaults.build_complete ⦃env = world⦄ given [] build_quiet

pack_quiet :
    failures (Modpack.pack_modules ⦃env = world⦄ (ascii "/m/6.6") (ascii "out.gz") []).1 ≡ 0
unfolding Modpack.pack_modules uki.Effects.◌>>=◌ uki.Effects.perform ascii uki.Effects.fail_if
    uki.Effects.with_file Modpack.write_archive Modpack.walk Modpack.visit_directory Modpack.visit
    Modpack.visit_regular Modpack.visit_symlink
pack_quiet = refl

pack_modules_complete_example :
    (Modpack.pack_modules ⦃env = world⦄ (ascii "/m/6.6") (ascii "out.gz") []).0 ≡ ok tt
unfolding ascii ModpackFaults.IsReadable
pack_modules_complete_example =
    ModpackFaults.pack_modules_complete ⦃env = world⦄ (ascii "/m/6.6") (ascii "out.gz") [] refl
      (tt, (tt, tt)) pack_quiet

pack_modules-bounded_example :
    length (Modpack.pack_modules ⦃env = world⦄ (ascii "/m/6.6") (ascii "out.gz") []).1
    ≤ 9 + ModpackCosts.needed (uki.Effects.Env.tree world (ascii "/m/6.6")) + 0
pack_modules-bounded_example =
    ModpackCosts.pack_modules-bounded ⦃env = world⦄ (ascii "/m/6.6") (ascii "out.gz") []

build-bounded_example : length (Pipeline.build ⦃env = world⦄ given []).1 ≤ 67 + 0
build-bounded_example = BuildCosts.build-bounded ⦃env = world⦄ given []

-- The bound is reached.
pack_calls :
    length (Modpack.pack_modules ⦃env = world⦄ (ascii "/m/6.6") (ascii "out.gz") []).1
    ≡ 9 + ModpackCosts.needed (uki.Effects.Env.tree world (ascii "/m/6.6"))
unfolding Modpack.pack_modules uki.Effects.◌>>=◌ uki.Effects.perform ascii uki.Effects.fail_if
    uki.Effects.with_file Modpack.write_archive Modpack.walk Modpack.visit_directory Modpack.visit
    Modpack.visit_regular Modpack.visit_symlink ModpackCosts.needed
pack_calls = refl
