-- ===== src/Push/Modpack.antt =====
-- cmd/cloud-boot/push/modpack: cmd.go and pack.go
pub mod Cmd
pub mod Balance
pub mod Local
pub mod Faults
pub mod Mirror
pub mod Costs
use Prim.Native.Nat.{bit_or}
use uki.Base.{ℕ, Text, ascii, is_empty, [], ◌∷◌, ◌==◌, ◌||◌, not, Text-discrete, if◌then◌else◌}
use uki.FilePath
use uki.Effects.{
  Exec, Env, Handle, Tree, Listing, missing, directory, unlistable, symlink, regular, other, end,
  entry, errorf, pure, fail, fail_if, ignoring, deferring, with_file, ◌>>=◌, ◌>>◌, perform, stat,
  create, gzip_writer, gzip_close, close, cpio_writer, cpio_dir, cpio_symlink, cpio_file,
  cpio_close, permissions, read_link, read_file,
}

-- `Opts`
pub record Opts : Type 0 where
  pub src : Text
  pub out : Text

-- `rootInCpio`
pub root_in_cpio : Text → Text
unfolding FilePath.base FilePath.trim_right FilePath.join ascii
root_in_cpio src =
    FilePath.join (ascii "lib" ∷ ascii "modules" ∷ FilePath.base (FilePath.trim_right src) ∷ [])

-- The name in the archive of the path `p` below `src`.
pub entry_name : Text → Text → Text
unfolding FilePath.rel FilePath.join ascii Text-discrete root_in_cpio
entry_name src p =
    let rel = FilePath.rel src p in
    FilePath.join (root_in_cpio src ∷ (if rel == ascii "." then [] else rel) ∷ [])

module _ ⦃env : Env⦄ (src : Text) (w : Handle) where
  -- The function given to `filepath.WalkDir`, at an entry whose error is nil: the permissions
  -- are asked for first.
  unfoldable pub visit : Text → (ℕ → Exec (Unit {0})) → Exec (Unit {0})
  visit p write = do mode ← perform (permissions p); write mode

  unfoldable pub visit_directory : Text → Exec (Unit {0})
  visit_directory p = visit p (λ mode. perform (cpio_dir w (entry_name src p) mode))

  unfoldable pub visit_symlink : Text → Exec (Unit {0})
  visit_symlink p = visit p (λ mode. do
    target ← perform (read_link p)
    perform (cpio_symlink w (entry_name src p) target mode))

  unfoldable pub visit_regular : Text → Exec (Unit {0})
  visit_regular p = visit p (λ mode. do
    content ← perform (read_file p)
    perform (cpio_file w (entry_name src p) (bit_or 0o100000 mode) content))

  -- Sockets, fifos and devices are skipped.
  unfoldable pub visit_other : Text → Exec (Unit {0})
  visit_other p = visit p (λ mode. pure tt)

  -- `filepath.WalkDir` with that function. A directory that cannot be read is visited, and then
  -- the function is called once more with the error, which it returns.
  unfoldable mutual
    pub walk : Text → Tree → Exec (Unit {0})
    walk p (missing e) = fail e
    walk p (directory entries) = visit_directory p >> walk_entries p entries
    walk p (unlistable e) = visit_directory p >> fail e
    walk p symlink = visit_symlink p
    walk p regular = visit_regular p
    walk p other = visit_other p

    pub walk_entries : Text → Listing → Exec (Unit {0})
    walk_entries p end = pure tt
    walk_entries p (entry name t entries) =
        walk (FilePath.join (p ∷ name ∷ [])) t >> walk_entries p entries

module _ ⦃env : Env⦄ where
  -- The entries, from the writer on.
  unfoldable pub write_archive : Text → Handle → Exec (Unit {0})
  write_archive src gz = do
    w ← perform (cpio_writer gz)
    perform (cpio_dir w (ascii "lib") 0o755)
    perform (cpio_dir w (ascii "lib/modules") 0o755)
    walk src w src (env.tree src)
    perform (cpio_close w)

  -- `packModules`
  unfoldable pub pack_modules : Text → Text → Exec (Unit {0})
  pack_modules src out = do
    is_dir ← perform (stat src)
    fail_if (not is_dir) (errorf "modpack: --src must be a directory" [])
    with_file (perform (create out)) (λ f. do
      gz ← perform (gzip_writer f)
      deferring (ignoring (perform (gzip_close gz))) (write_archive src gz))

  -- `Run`
  unfoldable pub run : Opts → Exec (Unit {0})
  run o = do
    fail_if (is_empty o.src || is_empty o.out)
        (errorf "modpack: --src and --output are required" [])
    pack_modules o.src o.out
