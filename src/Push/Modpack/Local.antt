-- ===== src/Push/Modpack/Local.antt =====
-- Packing modules does not talk to a registry.
use uki.Base.{Text, [], ◌∷◌}
use uki.FilePath
use uki.Effects.{
  Env, Handle, Tree, Listing, missing, directory, unlistable, symlink, regular, other, end, entry,
}
use uki.Effects.Local.{IsLocal}
use uki.Effects.Only.{Only-pure, Only-fail, Only-bind}
use uki.Effects.Only.Calls.{only}
use uki.Push.Modpack.{
  Opts, visit, visit_directory, visit_symlink, visit_regular, visit_other, walk, walk_entries,
  write_archive, pack_modules, run,
}

module _ ⦃env : Env⦄ (src : Text) (w : Handle) where
  IsLocal-directory : (p : Text) → IsLocal (visit_directory src w p)
  unfolding visit_directory visit
  IsLocal-directory p = search only depth 9

  IsLocal-symlink : (p : Text) → IsLocal (visit_symlink src w p)
  unfolding visit_symlink visit
  IsLocal-symlink p = search only depth 9

  IsLocal-regular : (p : Text) → IsLocal (visit_regular src w p)
  unfolding visit_regular visit
  IsLocal-regular p = search only depth 9

  IsLocal-other : (p : Text) → IsLocal (visit_other src w p)
  unfolding visit_other visit
  IsLocal-other p = search only depth 9

  mutual
    unfolding walk

    pub walk-IsLocal : (t : Tree) (p : Text) → IsLocal (walk src w p t)
    walk-IsLocal (missing e) p = Only-fail e
    walk-IsLocal (directory entries) p =
        Only-bind _ _ (IsLocal-directory p) (λ _. walk_entries-IsLocal entries p)
    walk-IsLocal (unlistable e) p = Only-bind _ _ (IsLocal-directory p) (λ _. Only-fail e)
    walk-IsLocal symlink p = IsLocal-symlink p
    walk-IsLocal regular p = IsLocal-regular p
    walk-IsLocal other p = IsLocal-other p

    pub walk_entries-IsLocal :
        (entries : Listing) (p : Text) → IsLocal (walk_entries src w p entries)
    walk_entries-IsLocal end p = Only-pure tt
    walk_entries-IsLocal (entry name t entries) p =
        Only-bind _ _ (walk-IsLocal t (FilePath.join (p ∷ name ∷ [])))
          (λ _. walk_entries-IsLocal entries p)

module _ ⦃env : Env⦄ where
  pub write_archive-IsLocal : (src : Text) (gz : Handle) → IsLocal (write_archive src gz)
  unfolding write_archive
  write_archive-IsLocal src gz =
      let walked = λ (w : Handle). walk-IsLocal src w (env.tree src) src in
      search (only, walked) depth 12

  pub IsLocal-run : (o : Opts) → IsLocal (run o)
  unfolding run pack_modules
  IsLocal-run o = search (only, write_archive-IsLocal) depth 14
