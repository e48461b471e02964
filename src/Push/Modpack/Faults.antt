-- ===== src/Push/Modpack/Faults.antt =====
-- When `packModules` returns an error.
use uki.Base.{Text, [], ◌∷◌, ◌≡◌, true, arith, refl}
use uki.Effects.{
  Env, History, Handle, Tree, Listing, missing, directory, unlistable, symlink, regular, other, end,
  entry, Exec, ok, ◌>>=◌, perform, stat, fail_if, with_file, create, gzip_writer, gzip_close,
  deferring, ignoring,
}
use uki.FilePath
use uki.Effects.Faults.{failures, IsHonest, IsHonest-pure, IsHonest-bind, IsHonest-succeeded}
use uki.Effects.Faults.Calls.{honest}
use uki.Push.Modpack.{
  visit, visit_directory, visit_symlink, visit_regular, visit_other, walk, walk_entries,
  write_archive, pack_modules,
}

-- The walk finds everything and can list every directory.
unfoldable mutual
  pub IsReadable : Tree → Type 0
  IsReadable (missing e) = ⊥
  IsReadable (directory entries) = AreReadable entries
  IsReadable (unlistable e) = ⊥
  IsReadable symlink = Unit
  IsReadable regular = Unit
  IsReadable other = Unit

  pub AreReadable : Listing → Type 0
  AreReadable end = Unit
  AreReadable (entry name t entries) = IsReadable t × AreReadable entries

module _ ⦃env : Env⦄ (src : Text) (w : Handle) where
  IsHonest-directory : (p : Text) → IsHonest (visit_directory src w p)
  unfolding visit_directory visit
  IsHonest-directory p = search honest depth 9

  IsHonest-symlink : (p : Text) → IsHonest (visit_symlink src w p)
  unfolding visit_symlink visit
  IsHonest-symlink p = search honest depth 9

  IsHonest-regular : (p : Text) → IsHonest (visit_regular src w p)
  unfolding visit_regular visit
  IsHonest-regular p = search honest depth 9

  IsHonest-other : (p : Text) → IsHonest (visit_other src w p)
  unfolding visit_other visit
  IsHonest-other p = search honest depth 9

  mutual
    unfolding walk IsReadable

    walk-IsHonest : (t : Tree) (p : Text) → IsReadable t → IsHonest (walk src w p t)
    walk-IsHonest (missing e) p v = absurd v
    walk-IsHonest (directory entries) p v =
        IsHonest-bind _ _ (IsHonest-directory p) (λ _. walk_entries-IsHonest entries p v)
    walk-IsHonest (unlistable e) p v = absurd v
    walk-IsHonest symlink p v = IsHonest-symlink p
    walk-IsHonest regular p v = IsHonest-regular p
    walk-IsHonest other p v = IsHonest-other p

    walk_entries-IsHonest :
        (entries : Listing) (p : Text)
        → AreReadable entries
        → IsHonest (walk_entries src w p entries)
    walk_entries-IsHonest end p v = IsHonest-pure tt
    walk_entries-IsHonest (entry name t entries) p (vt, v) =
        IsHonest-bind _ _ (walk-IsHonest t (FilePath.join (p ∷ name ∷ [])) vt)
          (λ _. walk_entries-IsHonest entries p v)

module _ ⦃env : Env⦄ where
  write_archive-IsHonest :
      (src : Text) (gz : Handle) → IsReadable (env.tree src) → IsHonest (write_archive src gz)
  unfolding write_archive
  write_archive-IsHonest src gz v =
      let walked = λ (w : Handle). walk-IsHonest src w (env.tree src) src v in
      search (honest, walked) depth 12

  -- `packModules` behind its checks.
  abbrev write_out : Text → Text → Exec (Unit {0})
  write_out src out = with_file (perform (create out)) (λ f. do
    gz ← perform (gzip_writer f)
    deferring (ignoring (perform (gzip_close gz))) (write_archive src gz))

  write_out-IsHonest : (src out : Text) → IsReadable (env.tree src) → IsHonest (write_out src out)
  write_out-IsHonest src out v =
      let archived = λ (gz : Handle). write_archive-IsHonest src gz v in
      search (honest, archived) depth 12

  pack_modules_of_directory :
      (src out : Text) (h : History)
      → env.answer h (stat src) ≡ ok true
      → pack_modules src out h ≡ write_out src out (record { call = stat src; reply = ok true } ∷ h)
  unfolding pack_modules ◌>>=◌ perform fail_if
  pack_modules_of_directory src out h dir = rw dir refl

-- Where `src` is a directory and the walk can list all that it finds, `packModules` returns no
-- error if none of its calls was answered with one.
pub pack_modules_complete :
    ⦃env : Env⦄ (src out : Text) (h : History)
    → env.answer h (stat src) ≡ ok true
    → IsReadable (env.tree src)
    → failures (pack_modules src out h).1 ≡ failures h
    → (pack_modules src out h).0 ≡ ok tt
pack_modules_complete src out h dir v f =
    let step = pack_modules_of_directory src out h dir in
    rw step (
      IsHonest-succeeded (record { call = stat src; reply = ok true } ∷ h)
        (write_out-IsHonest src out v) (let g = rw step at f in omega arith))
