-- ===== src/Push/Plan/Cmd.antt =====
-- `Cmd` of cmd/cloud-boot/push/plan/cmd.go.
use uki.Base.{ascii, List, [], ◌∷◌, false}
use uki.Effects.{Env}
use uki.Cobra.{Flag, Command, text_var, exactly_one}
use uki.Push.Plan.{Opts, run}

unfoldable pub flags : List (Flag Opts)
flags =
    record {
      name = ascii "file";
      shorthand = [];
      variable = text_var [] (λ v o. record o { file = v });
      usage = "path to plan.hcl (required)";
    }
    ∷ []

module _ ⦃env : Env⦄ where
  -- `Cmd`. `RunE` is given one argument, the reference.
  abbrev pub cmd : Command
  cmd = record {
    use_line = ascii "plan <ref>";
    short = "Push an HCL boot plan as a single-layer artifact";
    long = "";
    silence_usage = false;
    Options = Opts;
    initial = record { file = []; ref = [] };
    flags = flags;
    required = ascii "file" ∷ [];
    arity = exactly_one;
    run = λ o ref. run (record o { ref = ref });
  }
