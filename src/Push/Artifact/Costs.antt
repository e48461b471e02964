-- ===== src/Push/Artifact/Costs.antt =====
-- How long `Run` of cmd/cloud-boot/push/artifact runs.
use Prim.Native.Nat.{◌*◌}
use uki.Base.{ℕ, ◌+◌, arith, Text, List, [], ◌∷◌}
use uki.Oci.{Ref, Descriptor}
use uki.Effects.{Env, read_file, push_blob, push_manifest}
use uki.Effects.Costs.{
  Costs, Costs-pure, Costs-lift, Costs-fail_if, Costs-weaken, Costs-bind, Costs-wrapping,
  Costs-perform, Costs-print,
}
use uki.Push.Artifact.{
  Opts, push_file, add, add_cmdline, push_layers, push_config, config_json, manifest_of, upload,
  run,
}

-- 0 for a flag that is not given.
abbrev pub present : Text → ℕ
present [] = 0
present (c ∷ s) = 1

-- A file is read and uploaded, the command line is uploaded.
abbrev pub layer_calls : Opts → ℕ
layer_calls o =
    2 * present o.kernel
    + (2 * present o.initrd
        + (2 * present o.modules
            + (2 * present o.modloop
                + (2 * present o.apkovl + (2 * present o.squashfs + present o.cmdline)))))

module _ ⦃env : Env⦄ (ref : Ref) where
  Costs-push_file : (path media_type title : Text) → Costs 2 (push_file ref path media_type title)
  unfolding push_file
  Costs-push_file path media_type title =
      Costs-bind 1 1 _ _ (Costs-wrapping _ _ _ (Costs-perform (read_file path))) (λ contents.
        Costs-bind 1 0 _ _ (Costs-wrapping _ _ _ (Costs-perform (push_blob ref contents)))
          (λ digest. Costs-pure _))

  Costs-add :
      (path media_type title : Text) (layers : List Descriptor)
      → Costs (2 * present path) (add ref path media_type title layers)
  unfolding add
  Costs-add [] media_type title layers = Costs-pure layers
  Costs-add (c ∷ path) media_type title layers =
      Costs-bind 2 0 _ _ (Costs-push_file (c ∷ path) media_type title) (λ d. Costs-pure _)

  Costs-add_cmdline :
      (cmdline : Text) (layers : List Descriptor)
      → Costs (present cmdline) (add_cmdline ref cmdline layers)
  unfolding add_cmdline
  Costs-add_cmdline [] layers = Costs-pure layers
  Costs-add_cmdline (c ∷ cmdline) layers =
      Costs-bind 1 0 _ _ (Costs-wrapping _ _ _ (Costs-perform (push_blob ref (c ∷ cmdline))))
        (λ digest. Costs-pure _)

  Costs-push_config : (config : Text) → Costs 1 (push_config ref config)
  unfolding push_config
  Costs-push_config config =
      Costs-bind 1 0 _ _ (Costs-wrapping _ _ _ (Costs-perform (push_blob ref config)))
        (λ digest. Costs-pure _)

  Costs-push_layers : (o : Opts) → Costs (layer_calls o) (push_layers o ref)
  unfolding push_layers
  Costs-push_layers o = Costs-bind _ _ _ _ (Costs-add _ _ _ _) (λ l₁.
      Costs-bind _ _ _ _ (Costs-add _ _ _ _) (λ l₂. Costs-bind _ _ _ _ (Costs-add _ _ _ _) (λ l₃.
        Costs-bind _ _ _ _ (Costs-add _ _ _ _) (λ l₄.
          Costs-bind _ _ _ _ (Costs-add _ _ _ _)
            (λ l₅. Costs-bind _ _ _ _ (Costs-add _ _ _ _) (λ l₆. Costs-add_cmdline _ _))))))

  Costs-upload :
      (o : Opts) (os_name arch : Text) → Costs (3 + layer_calls o) (upload o os_name arch ref)
  unfolding upload
  Costs-upload o os_name arch = Costs-weaken (1 + (layer_calls o + (1 + 1))) _ _ (omega arith) (
      Costs-bind 1 _ _ _ (Costs-push_config (config_json os_name arch)) (λ config.
        Costs-bind (layer_calls o) _ _ _ (Costs-push_layers o) (λ layers.
          Costs-bind 1 1 _ _
            (Costs-wrapping _ _ _ (Costs-perform (push_manifest ref (manifest_of config layers))))
            (λ digest. Costs-print _))))

pub Costs-run : ⦃env : Env⦄ (o : Opts) → Costs (3 + layer_calls o) (run o)
unfolding run
Costs-run o =
    let n = 3 + layer_calls o in
    Costs-weaken (0 + (0 + (0 + (0 + n)))) n _ (omega arith) (
      Costs-bind 0 _ _ _ (Costs-fail_if _ _) (λ _. Costs-bind 0 _ _ _ (Costs-lift _) (λ p.
        Costs-bind 0 _ _ _ (Costs-fail_if _ _)
          (λ _. Costs-bind 0 n _ _ (Costs-lift _) (λ ref. Costs-upload ref o p.0 p.1)))))
