-- ===== src/Push/Modpack/Mirror.antt =====
-- The archive of `packModules` and the tree that it was made from: modes, contents and targets.
pub mod Walk
pub mod Whole
use Prim.Native.Nat.{bit_or}
use uki.Base.{ℕ, Text, List, [], ◌∷◌, ◌++◌}
use uki.FilePath
use uki.Effects.{
  Event, Handle, History, Tree, Listing, directory, symlink, regular, other, end, entry,
  permissions, read_link, read_file,
}
use uki.Effects.Log.{Occurs, there}
use uki.Archive.{Written, Entry, dir, file, link}
use uki.Push.Modpack.{entry_name}

-- The entries in the writer `w` mirror the tree at `p`: under the name of each path, a directory
-- with its permissions, a link with its target, a file with its content, as they were read at this
-- path. Sockets, fifos and devices have no entry, and no part of the tree was unreadable.
mutual
  pub data Mirrors (src : Text) (w : Handle) (h : History)
      : Text → Tree → List Written → Type 0 where
    a_directory :
        {p : Text} {entries : Listing} {es : List Written} {mode : ℕ}
        → Occurs (permissions p) mode h
        → MirrorsAll src w h p entries es
        → Mirrors src w h p (directory entries) ((w, dir (entry_name src p) mode) ∷ es)
    a_link :
        {p target : Text} {mode : ℕ}
        → Occurs (permissions p) mode h
        → Occurs (read_link p) target h
        → Mirrors src w h p symlink ((w, link (entry_name src p) target mode) ∷ [])
    a_file :
        {p content : Text} {mode : ℕ}
        → Occurs (permissions p) mode h
        → Occurs (read_file p) content h
        → Mirrors src w h p regular
            ((w, file (entry_name src p) (bit_or 0o100000 mode) content) ∷ [])
    skipped : {p : Text} → Mirrors src w h p other []

  pub data MirrorsAll (src : Text) (w : Handle) (h : History)
      : Text → Listing → List Written → Type 0 where
    no_more : {p : Text} → MirrorsAll src w h p end []
    each :
        {p name : Text} {t : Tree} {entries : Listing} {es fs : List Written}
        → Mirrors src w h (FilePath.join (p ∷ name ∷ [])) t es
        → MirrorsAll src w h p entries fs
        → MirrorsAll src w h p (entry name t entries) (es ++ fs)

module _ {src : Text} {w : Handle} {h : History} (e : Event) where
  mutual
    pub Mirrors-later :
        {p : Text} {t : Tree} {es : List Written}
        → Mirrors src w h p t es
        → Mirrors src w (e ∷ h) p t es
    Mirrors-later (a_directory m a) = a_directory (there m) (MirrorsAll-later a)
    Mirrors-later (a_link m t) = a_link (there m) (there t)
    Mirrors-later (a_file m c) = a_file (there m) (there c)
    Mirrors-later skipped = skipped

    pub MirrorsAll-later :
        {p : Text} {entries : Listing} {es : List Written}
        → MirrorsAll src w h p entries es
        → MirrorsAll src w (e ∷ h) p entries es
    MirrorsAll-later no_more = no_more
    MirrorsAll-later (each m a) = each (Mirrors-later m) (MirrorsAll-later a)
