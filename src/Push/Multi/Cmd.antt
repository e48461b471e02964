-- ===== src/Push/Multi/Cmd.antt =====
-- `Cmd` of cmd/cloud-boot/push/multi/cmd.go.
use uki.Base.{ascii, Text, List, [], ◌∷◌, false}
use uki.Effects.{Env, Result}
use uki.Cobra.{Flag, Command, value_var, text_var, exactly_one}
use uki.Push.Multi.{Opts, run}
use uki.Push.Multi.PathList

-- `Set` of the variable of `--kernel`.
unfoldable pub set_kernel : Text → Opts → Result (Unit {0}) × Opts
set_kernel v o = let (r, l) = PathList.set v o.kernels in (r, record o { kernels = l })

-- `Set` of the variable of `--initrd`.
unfoldable pub set_initrd : Text → Opts → Result (Unit {0}) × Opts
set_initrd v o = let (r, l) = PathList.set v o.initrds in (r, record o { initrds = l })

-- `Set` of the variable of `--modules`.
unfoldable pub set_modules : Text → Opts → Result (Unit {0}) × Opts
set_modules v o = let (r, l) = PathList.set v o.modules in (r, record o { modules = l })

unfoldable pub flags : List (Flag Opts)
flags =
    record {
      name = ascii "kernel";
      shorthand = ascii "k";
      variable = value_var set_kernel;
      usage = "<os/arch>=<path> (repeatable)";
    }
    ∷ record {
      name = ascii "initrd";
      shorthand = ascii "i";
      variable = value_var set_initrd;
      usage = "<os/arch>=<path> (repeatable)";
    }
    ∷ record {
      name = ascii "modules";
      shorthand = [];
      variable = value_var set_modules;
      usage = "<os/arch>=<path> (repeatable)";
    }
    ∷ record {
      name = ascii "cmdline";
      shorthand = [];
      variable = text_var [] (λ v o. record o { cmdline = v });
      usage = "kernel cmdline payload (shared across all arches)";
    }
    ∷ []

module _ ⦃env : Env⦄ where
  -- `Cmd`. `RunE` is given one argument, the reference.
  abbrev pub cmd : Command
  cmd = record {
    use_line = ascii "multi <ref>";
    short = "Push per-arch manifests and a multi-arch index in one command";
    long =
        "Push one OCI manifest per platform and assemble an image index in a\nsingle invocation. The set of platforms is the union of --kernel,\n--initrd, and --modules entries. Each per-arch manifest is pushed under\n\"<ref>-<arch>\"; the multi-arch index lands at \"<ref>\".\n\nExamples:\n\n  cloud-boot push multi registry/boot/linux:6.6 \\\n    --kernel  linux/amd64=bzImage-amd64 --kernel  linux/arm64=Image-arm64 \\\n    --initrd  linux/amd64=initrd-amd64  --initrd  linux/arm64=initrd-arm64 \\\n    --modules linux/amd64=mods-amd64    --modules linux/arm64=mods-arm64 \\\n    --cmdline \"console=ttyS0 ro\"";
    silence_usage = false;
    Options = Opts;
    initial = record { ref = []; kernels = []; initrds = []; modules = []; cmdline = [] };
    flags = flags;
    required = [];
    arity = exactly_one;
    run = λ o ref. run (record o { ref = ref });
  }
