-- ===== src/Archive.antt =====
-- What the cpio writer of github.com/cloud-boot/init/pkg/cpio is given, for the initramfs of
-- cmd/cloud-boot/build and the modules of cmd/cloud-boot/push/modpack.
pub mod Writes
use uki.Base.{ℕ, Text, List, [], ◌∷◌, ◌++◌}
use uki.Effects.{
  Result, ok, Call, Reply, History, Handle, cpio_dir, cpio_nod, cpio_file, cpio_symlink,
}

pub data Entry : Type 0 where
  dir : Text → ℕ → Entry
  node : Text → ℕ → ℕ → ℕ → Entry
  file : Text → ℕ → Text → Entry
  link : Text → Text → ℕ → Entry

abbrev pub name_of : Entry → Text
name_of (dir n _) = n
name_of (node n _ _ _) = n
name_of (file n _ _) = n
name_of (link n _ _) = n

-- An entry, with the writer that got it.
abbrev pub Written : Type 0
Written = Handle × Entry

abbrev pub both : Handle → Entry → Written
both w e = (w, e)

module _ {X : Type 0} (view : Handle → Entry → X) where
  abbrev note : (c : Call) → Result (Reply c) → List X → List X
  note (cpio_dir w n m) (ok _) l = l ++ view w (dir n m) ∷ []
  note (cpio_nod w n m a b) (ok _) l = l ++ view w (node n m a b) ∷ []
  note (cpio_file w n m t) (ok _) l = l ++ view w (file n m t) ∷ []
  note (cpio_symlink w n t m) (ok _) l = l ++ view w (link n t m) ∷ []
  note _ _ l = l

  -- What `view` shows of each entry that was written, in the order of writing.
  abbrev pub written : History → List X
  written [] = []
  written (e ∷ h) = note e.call e.reply (written h)
