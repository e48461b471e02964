-- ===== src/Push/Modpack/Cmd.antt =====
-- `Cmd` of cmd/cloud-boot/push/modpack/cmd.go.
use uki.Base.{ascii, List, [], ◌∷◌, false}
use uki.Effects.{Env}
use uki.Cobra.{Flag, Command, text_var, unchecked}
use uki.Push.Modpack.{Opts, run}

unfoldable pub flags : List (Flag Opts)
flags =
    record {
      name = ascii "src";
      shorthand = [];
      variable = text_var [] (λ v o. record o { src = v });
      usage = "source directory (e.g. /lib/modules/6.6.0) (required)";
    }
    ∷ record {
      name = ascii "output";
      shorthand = ascii "o";
      variable = text_var [] (λ v o. record o { out = v });
      usage = "output cpio.gz path (required)";
    }
    ∷ []

module _ ⦃env : Env⦄ where
  -- `Cmd`. `RunE` does not look at its arguments.
  abbrev pub cmd : Command
  cmd = record {
    use_line = ascii "modpack";
    short = "Pack a /lib/modules/<release> tree into a kernel-modules cpio.gz";
    long = "";
    silence_usage = false;
    Options = Opts;
    initial = record { src = []; out = [] };
    flags = flags;
    required = ascii "src" ∷ ascii "output" ∷ [];
    arity = unchecked;
    run = λ o args. run o;
  }
