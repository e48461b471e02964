-- ===== src/Push/Modpack/Mirror/Walk.antt =====
-- The walk of `packModules` mirrors the tree.
use Prim.Native.Nat.{bit_or}
use uki.Base.{ℕ, Text, List, [], ◌∷◌, ◌++◌, append-nil, append_assoc, ◌≡◌, ◌∙◌}
use uki.FilePath
use uki.Effects.{
  Exec, Env, Handle, History, Tree, Listing, missing, directory, unlistable, symlink, regular,
  other, end, entry, permissions, read_link, read_file, cpio_dir, cpio_symlink, cpio_file,
}
use uki.Effects.Hoare.{Triple, Triple-bind, Triple-perform, Triple-weaken, Triple-pure, Triple-fail}
use uki.Effects.Log.{Occurs, here, there}
use uki.Effects.Grows.{Triple-frame}
use uki.Effects.Only.Growth.{Only-Grows}
use uki.Archive.{Written, both, dir, written}
use uki.Push.Modpack.{
  entry_name, visit, visit_directory, visit_symlink, visit_regular, visit_other, walk, walk_entries,
}
use uki.Push.Modpack.Local.{walk_entries-IsLocal}
use uki.Push.Modpack.Mirror.{
  Mirrors, MirrorsAll, a_directory, a_link, a_file, skipped, no_more, each, Mirrors-later,
}

module _ ⦃env : Env⦄ (src : Text) (w : Handle) where
  -- Entries were added that mirror the tree.
  abbrev pub Added : List Written → Text → Tree → History → Type 0
  Added l p t h = (es : List Written) × (written both h ≡ l ++ es) × Mirrors src w h p t es

  abbrev AddedAll : List Written → Text → Listing → History → Type 0
  AddedAll l p entries h =
      (es : List Written) × (written both h ≡ l ++ es) × MirrorsAll src w h p entries es

  module _ (l : List Written) (p : Text) where
    abbrev AddsFrom : Exec (Unit {0}) → (History → Type 0) → Type 0
    AddsFrom m Q = Triple (λ h. written both h ≡ l) m (λ _. Q) (λ _. Unit {0})

    abbrev DirectoryAdded : History → Type 0
    DirectoryAdded h =
        (mode : ℕ) × Occurs (permissions p) mode h
        × (written both h ≡ l ++ (w, dir (entry_name src p) mode) ∷ [])

    -- What holds once the permissions were read.
    abbrev Examined : ℕ → History → Type 0
    Examined mode h = Occurs (permissions p) mode h × (written both h ≡ l)

    visit-Added :
        {Q : History → Type 0} (write : ℕ → Exec (Unit {0}))
        → ((mode : ℕ) → Triple (Examined mode) (write mode) (λ _. Q) (λ _. Unit {0}))
        → AddsFrom (visit src w p write) Q
    unfolding visit
    visit-Added write t =
        Triple-bind Examined _ _ (Triple-perform (permissions p) (λ h m e. (here, e)) (λ h x e. tt))
          t

    visit_directory-Added : AddsFrom (visit_directory src w p) DirectoryAdded
    unfolding visit_directory
    visit_directory-Added = visit-Added _ (λ mode.
        Triple-perform (cpio_dir w _ mode) (λ h a (o, e). (mode, there o, rw e)) (λ h x q. tt))

    visit_symlink-Added : AddsFrom (visit_symlink src w p) (Added l p symlink)
    unfolding visit_symlink
    visit_symlink-Added = visit-Added _ (λ mode.
        Triple-bind (λ target h. Occurs (read_link p) target h × Examined mode h) _ _
          (Triple-perform (read_link p) (λ h t (o, e). (here, (there o, e))) (λ h x q. tt))
          (λ target.
            Triple-perform (cpio_symlink w _ target mode)
              (λ h a (t, (o, e)). (_, rw e, a_link (there o) (there t))) (λ h x q. tt)))

    visit_regular-Added : AddsFrom (visit_regular src w p) (Added l p regular)
    unfolding visit_regular
    visit_regular-Added = visit-Added _ (λ mode.
        Triple-bind (λ content h. Occurs (read_file p) content h × Examined mode h) _ _
          (Triple-perform (read_file p) (λ h t (o, e). (here, (there o, e))) (λ h x q. tt))
          (λ content.
            Triple-perform (cpio_file w _ (bit_or 0o100000 mode) content)
              (λ h a (t, (o, e)). (_, rw e, a_file (there o) (there t))) (λ h x q. tt)))

    visit_other-Added : AddsFrom (visit_other src w p) (Added l p other)
    unfolding visit_other
    visit_other-Added =
        visit-Added _ (λ mode. Triple-pure tt (λ h (o, e). ([], rw append-nil e, skipped)))

  mutual
    unfolding walk

    pub walk-Added :
        (t : Tree) (l : List Written) (p : Text) → AddsFrom l p (walk src w p t) (Added l p t)
    walk-Added (missing e) l p = Triple-fail e (λ h q. tt)
    walk-Added (directory entries) l p =
        Triple-bind (λ _. DirectoryAdded l p) _ _ (visit_directory-Added l p)
          (λ _. record {
            at = λ h (mode, o, e).
                let t =
                  Triple-frame (Occurs (permissions p) mode) _ (record { later = λ k e o. there o })
                    (Only-Grows _ (walk_entries-IsLocal src w entries p))
                    (walk_entries-Added entries (l ++ (w, dir (entry_name src p) mode) ∷ []) p) in
                (Triple-weaken _ t (λ k q. q)
                    (λ _ k (o', (es, e', m)). (_ ∷ es, e' ∙ append_assoc l _ es, a_directory o' m))
                    (λ k q. tt)).at
                  h (o, e);
          })
    walk-Added (unlistable e) l p =
        Triple-bind (λ _. DirectoryAdded l p) _ _ (visit_directory-Added l p)
          (λ _. Triple-fail e (λ h q. tt))
    walk-Added symlink l p = visit_symlink-Added l p
    walk-Added regular l p = visit_regular-Added l p
    walk-Added other l p = visit_other-Added l p

    walk_entries-Added :
        (entries : Listing) (l : List Written) (p : Text)
        → AddsFrom l p (walk_entries src w p entries) (AddedAll l p entries)
    walk_entries-Added end l p = Triple-pure tt (λ h e. ([], rw append-nil e, no_more))
    walk_entries-Added (entry name t entries) l p =
        Triple-bind (λ _. Added l (FilePath.join (p ∷ name ∷ [])) t) _ _
          (walk-Added t l (FilePath.join (p ∷ name ∷ [])))
          (λ _. record {
            at = λ h (es, e, m).
                let frame =
                  Triple-frame (λ k. Mirrors src w k (FilePath.join (p ∷ name ∷ [])) t es) _
                    (record { later = λ k e m. Mirrors-later e m })
                    (Only-Grows _ (walk_entries-IsLocal src w entries p))
                    (walk_entries-Added entries (l ++ es) p) in
                (Triple-weaken _ frame (λ k q. q)
                    (λ _ k (m', (fs, e', a)). (es ++ fs, e' ∙ append_assoc l es fs, each m' a))
                    (λ k q. tt)).at
                  h (m, e);
          })
