-- ===== src/Push/Index/Costs.antt =====
-- How long `Run` of cmd/cloud-boot/push/index runs.
use uki.Base.{◌+◌, List, [], ◌∷◌, ◌++◌, length, arith}
use uki.Oci.{Descriptor}
use uki.Effects.{Env, describe_manifest, push_index}
use uki.Effects.Costs.{
  Costs, Costs-weaken, Costs-pure, Costs-lift, Costs-fail_if, Costs-bind, Costs-wrapping,
  Costs-perform, Costs-print,
}
use uki.Push.Index.{Opts, describe, describe_all, index_of, run}
use uki.Push.Index.PlatformList.{PlatformSpec, PlatformList}

module _ ⦃env : Env⦄ where
  Costs-describe : (p : PlatformSpec) → Costs 1 (describe p)
  unfolding describe
  Costs-describe p = Costs-bind 0 1 _ _ (Costs-lift _) (λ parsed.
      Costs-bind 0 1 _ _ (Costs-lift _) (λ r.
        Costs-bind 1 0 _ _ (Costs-wrapping _ _ _ (Costs-perform (describe_manifest r)))
          (λ found. Costs-pure _)))

  Costs-describe_all :
      (platforms : PlatformList) (entries : List Descriptor)
      → Costs (length platforms) (describe_all platforms entries)
  unfolding describe_all
  Costs-describe_all [] entries = Costs-pure entries
  Costs-describe_all (p ∷ platforms) entries =
      Costs-weaken (1 + length platforms) _ _ (omega arith) (
        Costs-bind 1 (length platforms) _ _ (Costs-describe p)
          (λ entry. Costs-describe_all platforms (entries ++ entry ∷ [])))

  pub Costs-run : (o : Opts) → Costs (length o.platforms + 2) (run o)
  unfolding run
  Costs-run o =
      let n = length o.platforms in
      Costs-weaken (0 + (0 + (n + 2))) _ _ (omega arith) (
        Costs-bind 0 _ _ _ (Costs-fail_if _ _) (λ _. Costs-bind 0 _ _ _ (Costs-lift _) (λ out_ref.
          Costs-bind n 2 _ _ (Costs-describe_all o.platforms []) (λ entries.
            Costs-bind 1 1 _ _
              (Costs-wrapping _ _ _ (Costs-perform (push_index out_ref (index_of entries))))
              (λ digest. Costs-print _)))))
