-- ===== src/Build/Cmd.antt =====
-- `Cmd` of cmd/cloud-boot/build/cmd.go.
use uki.Base.{ascii, List, [], ◌∷◌, false}
use uki.Effects.{Env}
use uki.Cobra.{Flag, Command, text_var, bool_var, unchecked}
use uki.Build.Command.{Flags, run}

-- The variables, with the defaults of their flags.
unfoldable pub defaults : Flags
defaults = record {
  arch = ascii "amd64";
  kernel = [];
  stub = [];
  cmdline = ascii "console=ttyS0";
  image = [];
  plan_ref = [];
  plan_file = [];
  target = [];
  extra = [];
  uname = ascii "6.6.0-cloud-boot";
  out = ascii "boot.iso";
  work_dir = [];
  keep = false;
  insec = false;
  verbose = false;
  cosign_key = [];
  zfs_userspace_cpio = [];
}

unfoldable pub flags : List (Flag Flags)
flags =
    record {
      name = ascii "arch";
      shorthand = [];
      variable = text_var (ascii "amd64") (λ v o. record o { arch = v });
      usage = "target arch (amd64|arm64|riscv64|loongarch64)";
    }
    ∷ record {
      name = ascii "kernel";
      shorthand = [];
      variable = text_var [] (λ v o. record o { kernel = v });
      usage = "path to host vmlinuz for the target arch (with EFI stub + virtio)";
    }
    ∷ record {
      name = ascii "stub";
      shorthand = [];
      variable = text_var [] (λ v o. record o { stub = v });
      usage = "path to systemd UEFI stub (auto-detected per arch)";
    }
    ∷ record {
      name = ascii "cmdline";
      shorthand = [];
      variable = text_var (ascii "console=ttyS0") (λ v o. record o { cmdline = v });
      usage = "kernel cmdline (augmented with cloudboot.* keys; 'quiet' injected unless --verbose)";
    }
    ∷ record {
      name = ascii "image";
      shorthand = [];
      variable = text_var [] (λ v o. record o { image = v });
      usage = "OCI ref of a single image (legacy mode)";
    }
    ∷ record {
      name = ascii "plan";
      shorthand = [];
      variable = text_var [] (λ v o. record o { plan_ref = v });
      usage = "OCI ref of an HCL boot plan (preferred)";
    }
    ∷ record {
      name = ascii "plan-file";
      shorthand = [];
      variable = text_var [] (λ v o. record o { plan_file = v });
      usage =
          "path to an HCL plan to embed at /etc/cloud-boot/plan.hcl in the initramfs (no OCI fetch needed for the plan itself)";
    }
    ∷ record {
      name = ascii "target";
      shorthand = [];
      variable = text_var [] (λ v o. record o { target = v });
      usage = "plan target name (sets cloudboot.target=)";
    }
    ∷ record {
      name = ascii "extra-cmdline";
      shorthand = [];
      variable = text_var [] (λ v o. record o { extra = v });
      usage = "additional cmdline parameters";
    }
    ∷ record {
      name = ascii "uname";
      shorthand = [];
      variable = text_var (ascii "6.6.0-cloud-boot") (λ v o. record o { uname = v });
      usage = "kernel version label embedded in UKI .uname";
    }
    ∷ record {
      name = ascii "output";
      shorthand = ascii "o";
      variable = text_var (ascii "boot.iso") (λ v o. record o { out = v });
      usage = "output ISO path";
    }
    ∷ record {
      name = ascii "work";
      shorthand = [];
      variable = text_var [] (λ v o. record o { work_dir = v });
      usage = "build workdir (default: tempdir)";
    }
    ∷ record {
      name = ascii "keep";
      shorthand = [];
      variable = bool_var false (λ b o. record o { keep = b });
      usage = "keep workdir on success";
    }
    ∷ record {
      name = ascii "insecure";
      shorthand = [];
      variable = bool_var false (λ b o. record o { insec = b });
      usage = "pass cloudboot.insecure=1 to the init (allow http registry)";
    }
    ∷ record {
      name = ascii "verbose";
      shorthand = ascii "v";
      variable = bool_var false (λ b o. record o { verbose = b });
      usage = "skip the automatic 'quiet' injection (full kernel boot log)";
    }
    ∷ record {
      name = ascii "cosign-key";
      shorthand = [];
      variable = text_var [] (λ v o. record o { cosign_key = v });
      usage = "PEM-encoded cosign public key; embedded in initramfs";
    }
    ∷ record {
      name = ascii "zfs-userspace-cpio";
      shorthand = [];
      variable = text_var [] (λ v o. record o { zfs_userspace_cpio = v });
      usage =
          "path to a cpio.gz holding zpool/zfs binaries + their dyn-libs; appended to the initramfs so the ZFS disk-target branch can import pools at boot (paired with the disk-zfs kernel variant — see kernel/Dockerfile.arm64-disk-zfs)";
    }
    ∷ []

module _ ⦃env : Env⦄ where
  -- `Cmd`. `RunE` does not look at its arguments.
  abbrev pub cmd : Command
  cmd = record {
    use_line = ascii "build";
    short = "Assemble a bootable UEFI UKI/ISO";
    long =
        "Cross-compile cloud-boot-init for the target arch, pack it into an\ninitramfs, assemble a UKI (.linux + .initrd + .cmdline + …) via the\ngo-coff/pe library, stage a FAT16 EFI System Partition, and produce a\nUEFI-bootable El Torito ISO with xorriso.\n\nAt least one of --plan-file, --plan or --image must be set.\n--plan-file embeds the HCL plan into the initramfs at\n/etc/cloud-boot/plan.hcl (no runtime OCI fetch for the plan\nitself, though the targets it references can still pull\nartifacts from a registry); --plan keeps the OCI-fetch path;\n--image is the legacy single-manifest shorthand. --plan-file\nand --plan can be combined to embed a default but allow a\nruntime cmdline override.";
    silence_usage = false;
    Options = Flags;
    initial = defaults;
    flags = flags;
    required = [];
    arity = unchecked;
    run = λ f args. run f;
  }
