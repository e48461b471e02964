-- ===== src/Push/Artifact/Balance.antt =====
-- `push artifact` holds nothing behind its run.
use uki.Base.{Text, List}
use uki.Oci.{Ref, Descriptor}
use uki.Effects.{Env, print}
use uki.Effects.Resources.{IsBalanced}
use uki.Effects.Resources.Quiet.{balanced}
use uki.Push.Artifact.{Opts, push_file, add, add_cmdline, push_layers, push_config, upload, run}

module _ ⦃env : Env⦄ where
  IsBalanced-add : (ref : Ref) (p m t : Text) (ds : List Descriptor) → IsBalanced (add ref p m t ds)
  unfolding push_file add
  IsBalanced-add ref p m t ds = search balanced depth 9

  IsBalanced-add_cmdline :
      (ref : Ref) (t : Text) (ds : List Descriptor) → IsBalanced (add_cmdline ref t ds)
  unfolding add_cmdline
  IsBalanced-add_cmdline ref t ds = search balanced

  IsBalanced-push_layers : (o : Opts) (ref : Ref) → IsBalanced (push_layers o ref)
  unfolding push_layers
  IsBalanced-push_layers o ref = search (balanced, IsBalanced-add, IsBalanced-add_cmdline) depth 9

  IsBalanced-upload :
      (o : Opts) (os_name arch : Text) (ref : Ref) → IsBalanced (upload o os_name arch ref)
  unfolding upload push_config print
  IsBalanced-upload o os_name arch ref = search (balanced, IsBalanced-push_layers) depth 9

  pub IsBalanced-run : (o : Opts) → IsBalanced (run o)
  unfolding run
  IsBalanced-run o = search (balanced, IsBalanced-upload) depth 9
