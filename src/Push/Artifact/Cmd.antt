-- ===== src/Push/Artifact/Cmd.antt =====
-- `Cmd` of cmd/cloud-boot/push/artifact/cmd.go.
use uki.Base.{ascii, List, [], ◌∷◌, false}
use uki.Effects.{Env}
use uki.Cobra.{Flag, Command, text_var, exactly_one}
use uki.Push.Artifact.{Opts, run}

-- `o` ahead of the flags.
unfoldable pub no_opts : Opts
no_opts = record {
  platform = [];
  kernel = [];
  initrd = [];
  modules = [];
  modloop = [];
  apkovl = [];
  squashfs = [];
  cmdline = [];
  ref = [];
}

unfoldable pub flags : List (Flag Opts)
flags =
    record {
      name = ascii "platform";
      shorthand = [];
      variable = text_var [] (λ v o. record o { platform = v });
      usage = "OS/arch e.g. linux/amd64 (required)";
    }
    ∷ record {
      name = ascii "kernel";
      shorthand = [];
      variable = text_var [] (λ v o. record o { kernel = v });
      usage = "path to vmlinuz (optional)";
    }
    ∷ record {
      name = ascii "initrd";
      shorthand = [];
      variable = text_var [] (λ v o. record o { initrd = v });
      usage = "path to initramfs (optional)";
    }
    ∷ record {
      name = ascii "modules";
      shorthand = [];
      variable = text_var [] (λ v o. record o { modules = v });
      usage = "path to modules cpio.gz (optional)";
    }
    ∷ record {
      name = ascii "modloop";
      shorthand = [];
      variable = text_var [] (λ v o. record o { modloop = v });
      usage = "path to a raw squashfs blob (Alpine modloop-virt or equivalent; optional)";
    }
    ∷ record {
      name = ascii "apkovl";
      shorthand = [];
      variable = text_var [] (λ v o. record o { apkovl = v });
      usage = "path to an Alpine apkovl tar.gz overlay (optional)";
    }
    ∷ record {
      name = ascii "squashfs";
      shorthand = [];
      variable = text_var [] (λ v o. record o { squashfs = v });
      usage = "path to a Debian/Ubuntu live filesystem.squashfs (optional)";
    }
    ∷ record {
      name = ascii "cmdline";
      shorthand = [];
      variable = text_var [] (λ v o. record o { cmdline = v });
      usage = "kernel cmdline payload (optional)";
    }
    ∷ []

module _ ⦃env : Env⦄ where
  -- `Cmd`. `RunE` is given one argument, the reference.
  abbrev pub cmd : Command
  cmd = record {
    use_line = ascii "artifact <ref>";
    short = "Push a single-arch kernel/initrd/modules/cmdline manifest";
    long = "";
    silence_usage = false;
    Options = Opts;
    initial = no_opts;
    flags = flags;
    required = ascii "platform" ∷ [];
    arity = exactly_one;
    run = λ o ref. run (record o { ref = ref });
  }
