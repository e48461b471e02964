-- ===== src/Push/Index/Cmd.antt =====
-- `Cmd` of cmd/cloud-boot/push/index/cmd.go.
use uki.Base.{ascii, Text, List, [], ◌∷◌, false}
use uki.Effects.{Env, Result}
use uki.Cobra.{Flag, Command, value_var, exactly_one}
use uki.Push.Index.{Opts, run}
use uki.Push.Index.PlatformList

-- `Set` of the variable of `--platform`.
unfoldable pub set_platform : Text → Opts → Result (Unit {0}) × Opts
set_platform v o = let (r, l) = PlatformList.set v o.platforms in (r, record o { platforms = l })

unfoldable pub flags : List (Flag Opts)
flags =
    record {
      name = ascii "platform";
      shorthand = ascii "p";
      variable = value_var set_platform;
      usage = "<os/arch>=<ref-or-digest> (repeatable)";
    }
    ∷ []

module _ ⦃env : Env⦄ where
  -- `Cmd`. `RunE` is given one argument, the reference of the index.
  abbrev pub cmd : Command
  cmd = record {
    use_line = ascii "index <out-ref>";
    short = "Assemble a multi-arch image index from existing per-arch manifests";
    long = "";
    silence_usage = false;
    Options = Opts;
    initial = record { platforms = []; out_ref = [] };
    flags = flags;
    required = [];
    arity = exactly_one;
    run = λ o out_ref. run (record o { out_ref = out_ref });
  }
