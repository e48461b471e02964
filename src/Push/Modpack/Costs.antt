-- ===== src/Push/Modpack/Costs.antt =====
-- How long `packModules` of cmd/cloud-boot/push/modpack/pack.go runs.
use Prim.Native.Nat.{bit_or}
use uki.Base.{ℕ, ◌+◌, ◌≤◌, Text, ascii, length, arith, [], ◌∷◌}
use uki.FilePath
use uki.Effects.{
  Env, Handle, History, Tree, Listing, missing, directory, unlistable, symlink, regular, other, end,
  entry, permissions, read_link, read_file, cpio_dir, cpio_symlink, cpio_file, cpio_writer,
  cpio_close, stat, create, gzip_writer, gzip_close,
}
use uki.Effects.Costs.{
  Costs, Costs-weaken, Costs-pure, Costs-fail, Costs-fail_if, Costs-bind, Costs-perform,
  Costs-ignoring, Costs-deferring, Costs-with_file,
}
use uki.Push.Modpack.{
  entry_name, visit, visit_directory, visit_symlink, visit_regular, visit_other, walk, walk_entries,
  write_archive, pack_modules,
}

-- How many calls the paths of a tree need: two for a directory, its permissions and its entry of
-- the archive; three for a link or a file, whose target or content is read too; one for what is
-- left out.
unfoldable mutual
  pub needed : Tree → ℕ
  needed (missing e) = 0
  needed (directory entries) = 2 + needed_entries entries
  needed (unlistable e) = 2
  needed symlink = 3
  needed regular = 3
  needed other = 1

  pub needed_entries : Listing → ℕ
  needed_entries end = 0
  needed_entries (entry _ t entries) = needed t + needed_entries entries

module _ ⦃env : Env⦄ (src : Text) (w : Handle) where
  Costs-directory : (p : Text) → Costs 2 (visit_directory src w p)
  unfolding visit_directory visit
  Costs-directory p =
      Costs-bind 1 1 _ _ (Costs-perform (permissions p))
        (λ mode. Costs-perform (cpio_dir w (entry_name src p) mode))

  Costs-symlink : (p : Text) → Costs 3 (visit_symlink src w p)
  unfolding visit_symlink visit
  Costs-symlink p = Costs-bind 1 2 _ _ (Costs-perform (permissions p)) (λ mode.
      Costs-bind 1 1 _ _ (Costs-perform (read_link p))
        (λ target. Costs-perform (cpio_symlink w (entry_name src p) target mode)))

  Costs-regular : (p : Text) → Costs 3 (visit_regular src w p)
  unfolding visit_regular visit
  Costs-regular p = Costs-bind 1 2 _ _ (Costs-perform (permissions p)) (λ mode.
      Costs-bind 1 1 _ _ (Costs-perform (read_file p))
        (λ content. Costs-perform (cpio_file w (entry_name src p) (bit_or 0o100000 mode) content)))

  Costs-other : (p : Text) → Costs 1 (visit_other src w p)
  unfolding visit_other visit
  Costs-other p = Costs-bind 1 0 _ _ (Costs-perform (permissions p)) (λ mode. Costs-pure tt)

  mutual
    unfolding walk needed

    pub Costs-walk : (t : Tree) (p : Text) → Costs (needed t) (walk src w p t)
    Costs-walk (missing e) p = Costs-fail e
    Costs-walk (directory entries) p =
        Costs-bind 2 (needed_entries entries) _ _ (Costs-directory p) (λ _. Costs-entries entries p)
    Costs-walk (unlistable e) p = Costs-bind 2 0 _ _ (Costs-directory p) (λ _. Costs-fail e)
    Costs-walk symlink p = Costs-symlink p
    Costs-walk regular p = Costs-regular p
    Costs-walk other p = Costs-other p

    Costs-entries :
        (entries : Listing) (p : Text)
        → Costs (needed_entries entries) (walk_entries src w p entries)
    Costs-entries end p = Costs-pure tt
    Costs-entries (entry name t entries) p =
        Costs-bind (needed t) (needed_entries entries) _ _
          (Costs-walk t (FilePath.join (p ∷ name ∷ []))) (λ _. Costs-entries entries p)

module _ ⦃env : Env⦄ (src : Text) where
  Costs-write_archive : (gz : Handle) → Costs (4 + needed (env.tree src)) (write_archive src gz)
  unfolding write_archive
  Costs-write_archive gz =
      let n = needed (env.tree src) in
      Costs-weaken (1 + (1 + (1 + (n + 1)))) _ _ (omega arith) (
        Costs-bind 1 (1 + (1 + (n + 1))) _ _ (Costs-perform (cpio_writer gz)) (λ w.
          Costs-bind 1 (1 + (n + 1)) _ _ (Costs-perform (cpio_dir w (ascii "lib") 0o755)) (λ _.
            Costs-bind 1 (n + 1) _ _ (Costs-perform (cpio_dir w (ascii "lib/modules") 0o755)) (λ _.
              Costs-bind n 1 _ _ (Costs-walk src w (env.tree src) src)
                (λ _. Costs-perform (cpio_close w))))))

  Costs-pack_modules : (out : Text) → Costs (9 + needed (env.tree src)) (pack_modules src out)
  unfolding pack_modules
  Costs-pack_modules out =
      let n = 4 + needed (env.tree src) in
      Costs-weaken (1 + (0 + (1 + ((1 + (n + 1)) + 1)))) _ _ (omega arith) (
        Costs-bind 1 _ _ _ (Costs-perform (stat src)) (λ is_dir.
          Costs-bind 0 _ _ _ (Costs-fail_if _ _) (λ _.
            Costs-with_file 1 _ _ _ (Costs-perform (create out)) (λ f.
              Costs-bind 1 (n + 1) _ _ (Costs-perform (gzip_writer f)) (λ gz.
                Costs-deferring 1 n _ _ (Costs-ignoring _ (Costs-perform (gzip_close gz)))
                  (Costs-write_archive gz))))))

-- `packModules` ends, whatever the replies are, after at most nine calls and those that the paths
-- at `src` need: two for each directory, also one that cannot be listed, three for each link and
-- each file, one for what is neither, and none for what is missing.
pub pack_modules-bounded :
    ⦃env : Env⦄ (src out : Text) (h : History)
    → length (pack_modules src out h).1 ≤ 9 + needed (env.tree src) + length h
pack_modules-bounded src out h = omega (arith, (Costs-pack_modules src out).at h)
