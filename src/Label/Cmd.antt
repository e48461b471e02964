-- ===== src/Label/Cmd.antt =====
-- `Cmd` of cmd/cloud-boot/label/cmd.go.
use uki.Base.{ascii, Text, List, [], ◌∷◌, true, Option, none, some}
use uki.Effects.{Env, ℤ, pos}
use uki.Cobra.{Flag, Command, int_var, one_or_two}
use uki.Label.{run}

unfoldable pub flags : List (Flag ℤ)
flags =
    record {
      name = ascii "part";
      shorthand = [];
      variable = int_var (pos 0) (λ n part. n);
      usage = "partition index (0-based; -1 = auto-detect first Linux partition)";
    }
    ∷ []

abbrev rest : Option Text → List Text
rest none = []
rest (some label) = label ∷ []

module _ ⦃env : Env⦄ where
  -- `Cmd`. Its one variable is `partIndex`.
  abbrev pub cmd : Command
  cmd = record {
    use_line = ascii "label [flags] <image> [<new-label>]";
    short = "Read or write the ext4 volume label of a disk image (raw / QCOW2 / UDIF-UDRW)";
    long =
        "Read or write the ext4 volume label of a disk image.\n\nThe image format is detected automatically:\n  - raw           — direct file I/O\n  - QCOW2         — through the copy-on-write layer\n  - UDIF DMG      — UDRW subformat only (in place, koly checksums refreshed\n                    on close). Compressed DMGs are rejected; use\n                    dmg.UnpackToTemp + PackFromTemp if you really need them.\n\nWith one argument, prints the current label. With two arguments, writes\nthe second as the new label (max 16 bytes for ext4).\n\nThe --part flag picks which partition to look at when the image is\nGPT/MBR-partitioned. Use -1 to auto-detect the first Linux partition.\n\nExamples:\n  cloud-boot label genericcloud.qcow2                        # read\n  cloud-boot label --part 0 genericcloud.raw cloudimg-rootfs # stamp\n";
    silence_usage = true;
    Options = ℤ;
    initial = pos 0;
    flags = flags;
    required = [];
    arity = one_or_two;
    run = λ part_index (path, label). run part_index path (rest label);
  }
