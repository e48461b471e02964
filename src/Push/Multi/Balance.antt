-- ===== src/Push/Multi/Balance.antt =====
-- `push multi` holds nothing behind its run.
use uki.Base.{Text, List, [], ◌∷◌}
use uki.Effects.{Env}
use uki.Effects.Resources.{
  IsBalanced, IsBalanced-pure, IsBalanced-bind, IsBalanced-lift, IsBalanced-wrapping,
  IsBalanced-fail_if,
}
use uki.Push.Artifact.Balance as ArtifactBalance
use uki.Push.Index
use uki.Push.Index.Balance as IndexBalance
use uki.Push.Multi.{Opts, push_all, run}

module _ ⦃env : Env⦄ where
  IsBalanced-push_all :
      (o : Opts) (ps : List Text) (specs : Index.PlatformList.PlatformList)
      → IsBalanced (push_all o ps specs)
  unfolding push_all
  IsBalanced-push_all o [] specs = IsBalanced-pure specs
  IsBalanced-push_all o (p ∷ ps) specs = IsBalanced-bind _ _ (IsBalanced-lift _) (λ arch_ref.
      IsBalanced-bind _ _ (IsBalanced-wrapping _ _ _ (ArtifactBalance.IsBalanced-run _))
        (λ _. IsBalanced-bind _ _ (IsBalanced-lift _) (λ _. IsBalanced-push_all o ps _)))

  pub IsBalanced-run : (o : Opts) → IsBalanced (run o)
  unfolding run
  IsBalanced-run o = IsBalanced-bind _ _ (IsBalanced-fail_if _ _) (λ _.
      IsBalanced-bind _ _ (IsBalanced-lift _) (λ _.
        IsBalanced-bind _ _ (IsBalanced-push_all o _ []) (λ ss. IndexBalance.IsBalanced-run _)))
