-- ===== src/Push/Artifact/Growth.antt =====
-- `push artifact` only adds to the history.
use uki.Base.{Text, List}
use uki.Oci.{Ref, Descriptor}
use uki.Effects.{Env, print}
use uki.Effects.Grows.{Grows, grows_rules}
use uki.Push.Artifact.{Opts, push_file, add, add_cmdline, push_layers, push_config, upload, run}

module _ ⦃env : Env⦄ where
  Grows-add : (ref : Ref) (p m t : Text) (ds : List Descriptor) → Grows (add ref p m t ds)
  unfolding push_file add
  Grows-add ref p m t ds = search grows_rules depth 9

  Grows-add_cmdline : (ref : Ref) (t : Text) (ds : List Descriptor) → Grows (add_cmdline ref t ds)
  unfolding add_cmdline
  Grows-add_cmdline ref t ds = search grows_rules

  Grows-push_layers : (o : Opts) (ref : Ref) → Grows (push_layers o ref)
  unfolding push_layers
  Grows-push_layers o ref = search (grows_rules, Grows-add, Grows-add_cmdline) depth 9

  Grows-upload : (o : Opts) (os_name arch : Text) (ref : Ref) → Grows (upload o os_name arch ref)
  unfolding upload push_config print
  Grows-upload o os_name arch ref = search (grows_rules, Grows-push_layers) depth 9

  pub Grows-run : (o : Opts) → Grows (run o)
  unfolding run
  Grows-run o = search (grows_rules, Grows-upload) depth 9
