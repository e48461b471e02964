-- ===== src/Push/Modpack/Balance.antt =====
-- Packing modules closes the files that it opens.
use uki.Base.{Text, [], ◌∷◌}
use uki.FilePath
use uki.Effects.{
  Env, Handle, Tree, Listing, missing, directory, unlistable, symlink, regular, other, end, entry,
}
use uki.Effects.Resources.{IsBalanced, IsBalanced-pure, IsBalanced-fail, IsBalanced-bind}
use uki.Effects.Resources.Quiet.{balanced}
use uki.Push.Modpack.{
  Opts, visit, visit_directory, visit_symlink, visit_regular, visit_other, walk, walk_entries,
  write_archive, pack_modules, run,
}

module _ ⦃env : Env⦄ (src : Text) (w : Handle) where
  IsBalanced-directory : (p : Text) → IsBalanced (visit_directory src w p)
  unfolding visit_directory visit
  IsBalanced-directory p = search balanced depth 9

  IsBalanced-symlink : (p : Text) → IsBalanced (visit_symlink src w p)
  unfolding visit_symlink visit
  IsBalanced-symlink p = search balanced depth 9

  IsBalanced-regular : (p : Text) → IsBalanced (visit_regular src w p)
  unfolding visit_regular visit
  IsBalanced-regular p = search balanced depth 9

  IsBalanced-other : (p : Text) → IsBalanced (visit_other src w p)
  unfolding visit_other visit
  IsBalanced-other p = search balanced depth 9

  mutual
    unfolding walk

    walk-IsBalanced : (t : Tree) (p : Text) → IsBalanced (walk src w p t)
    walk-IsBalanced (missing e) p = IsBalanced-fail e
    walk-IsBalanced (directory entries) p =
        IsBalanced-bind _ _ (IsBalanced-directory p) (λ _. walk_entries-IsBalanced entries p)
    walk-IsBalanced (unlistable e) p =
        IsBalanced-bind _ _ (IsBalanced-directory p) (λ _. IsBalanced-fail e)
    walk-IsBalanced symlink p = IsBalanced-symlink p
    walk-IsBalanced regular p = IsBalanced-regular p
    walk-IsBalanced other p = IsBalanced-other p

    walk_entries-IsBalanced :
        (entries : Listing) (p : Text) → IsBalanced (walk_entries src w p entries)
    walk_entries-IsBalanced end p = IsBalanced-pure tt
    walk_entries-IsBalanced (entry name t entries) p =
        IsBalanced-bind _ _ (walk-IsBalanced t (FilePath.join (p ∷ name ∷ [])))
          (λ _. walk_entries-IsBalanced entries p)

module _ ⦃env : Env⦄ where
  write_archive-IsBalanced : (src : Text) (gz : Handle) → IsBalanced (write_archive src gz)
  unfolding write_archive
  write_archive-IsBalanced src gz =
      let walked = λ (w : Handle). walk-IsBalanced src w (env.tree src) src in
      search (balanced, walked) depth 12

  pub IsBalanced-run : (o : Opts) → IsBalanced (run o)
  unfolding run pack_modules
  IsBalanced-run o = search (balanced, write_archive-IsBalanced) depth 14
