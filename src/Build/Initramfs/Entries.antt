-- ===== src/Build/Initramfs/Entries.antt =====
-- What `buildInitramfs` writes into the archive.
use uki.Base.{
  Text, Bool, true, false, ascii, is_empty, Option, none, some, List, [], ◌∷◌, ◌++◌, append-nil,
  map, ◌≡◌, refl, ◌&&◌, ◌||◌, ◌==◌, Text-discrete, if◌then◌else◌,
}
use uki.Strings.{byte_eq}
use uki.Effects.{Env, Handle, cpio_close}
use uki.Archive.{Written, both, Entry, dir, node, file, link, name_of}
use uki.Archive.Writes.{
  Writes, Writes-pure, Writes-bind, Writes-quiet, Writes-dir, Writes-node, Writes-file, Writes-link,
}
use uki.Build.Initramfs.{directories, write_dirs, write_key, write_plan, write_entries}

-- The entries, for the content of the init binary, the key and the plan.
pub initramfs_entries : Text → Text → Text → List Entry
initramfs_entries init cosign_pem plan_hcl =
    map (λ d. dir d 0o755) directories
    ++ (node (ascii "dev/console") 0o020600 5 1
        ∷ node (ascii "dev/null") 0o020666 1 3
        ∷ file (ascii "init") 0o100755 init
        ∷ link (ascii "sbin/init") (ascii "/init") 0o777
        ∷ ((if is_empty cosign_pem
              then []
              else file (ascii "etc/cosign.pub") 0o100644 cosign_pem ∷ [])
            ++ (if is_empty plan_hcl
                then []
                else dir (ascii "etc/cloud-boot") 0o755
                  ∷ file (ascii "etc/cloud-boot/plan.hcl") 0o100644 plan_hcl
                  ∷ [])))

abbrev key_entry : (Entry → Written) → Text → List Written
key_entry mk pem = if is_empty pem then [] else mk (file (ascii "etc/cosign.pub") 0o100644 pem) ∷ []

abbrev plan_entries : (Entry → Written) → Text → List Written
plan_entries mk hcl =
    if is_empty hcl
    then []
    else mk (dir (ascii "etc/cloud-boot") 0o755)
      ∷ mk (file (ascii "etc/cloud-boot/plan.hcl") 0o100644 hcl)
      ∷ []

-- The same, each entry written by `mk`.
abbrev spelled : (Entry → Written) → Text → Text → Text → List Written
spelled mk init pem hcl =
    map (λ d. mk (dir d 0o755)) directories
    ++ (mk (node (ascii "dev/console") 0o020600 5 1)
        ∷ mk (node (ascii "dev/null") 0o020666 1 3)
        ∷ mk (file (ascii "init") 0o100755 init)
        ∷ mk (link (ascii "sbin/init") (ascii "/init") 0o777)
        ∷ (key_entry mk pem ++ plan_entries mk hcl))

map-initramfs_entries :
    (mk : Entry → Written) (init pem hcl : Text)
    → map mk (initramfs_entries init pem hcl) ≡ spelled mk init pem hcl
unfolding initramfs_entries directories
map-initramfs_entries mk init [] [] = refl
map-initramfs_entries mk init [] (c ∷ hcl) = refl
map-initramfs_entries mk init (c ∷ pem) [] = refl
map-initramfs_entries mk init (c ∷ pem) (d ∷ hcl) = refl

module _ ⦃env : Env⦄ (w : Handle) where
  abbrev at_w : Entry → Written
  at_w e = (w, e)

  write_dirs-Writes :
      (ds : List Text) → Writes both (map (λ d. at_w (dir d 0o755)) ds) (write_dirs w ds)
  unfolding write_dirs
  write_dirs-Writes [] = Writes-pure both tt
  write_dirs-Writes (d ∷ ds) =
      Writes-bind both _ _ (Writes-dir both w d 0o755) (λ _. write_dirs-Writes ds)

  write_key-Writes : (pem : Text) → Writes both (key_entry at_w pem) (write_key w pem)
  unfolding write_key
  write_key-Writes [] = Writes-pure both tt
  write_key-Writes (c ∷ pem) = Writes-file both w _ 0o100644 (c ∷ pem)

  write_plan-Writes : (hcl : Text) → Writes both (plan_entries at_w hcl) (write_plan w hcl)
  unfolding write_plan
  write_plan-Writes [] = Writes-pure both tt
  write_plan-Writes (c ∷ hcl) =
      Writes-bind both _ _ (Writes-dir both w _ 0o755)
        (λ _. Writes-file both w _ 0o100644 (c ∷ hcl))

  spelled-Writes :
      (init pem hcl : Text) → Writes both (spelled at_w init pem hcl) (write_entries w init pem hcl)
  unfolding write_entries
  spelled-Writes init pem hcl = Writes-bind both _ _ (write_dirs-Writes directories) (λ _.
      Writes-bind both _ _ (Writes-node both w _ 0o020600 5 1) (λ _.
        Writes-bind both _ _ (Writes-node both w _ 0o020666 1 3) (λ _.
          Writes-bind both _ _ (Writes-file both w _ 0o100755 init) (λ _.
            Writes-bind both _ _ (Writes-link both w _ _ 0o777) (λ _.
              Writes-bind both _ _ (write_key-Writes pem) (λ _.
                rw (← append-nil (plan_entries at_w hcl)) (
                  Writes-bind both _ _ (write_plan-Writes hcl)
                    (λ _. Writes-quiet both (cpio_close w) (λ r l. refl)))))))))

  -- The entries go to `w`, which is closed behind them.
  pub write_entries-Writes :
      (init pem hcl : Text)
      → Writes both (map at_w (initramfs_entries init pem hcl)) (write_entries w init pem hcl)
  write_entries-Writes init pem hcl =
      rw (map-initramfs_entries at_w init pem hcl) (spelled-Writes init pem hcl)

-- The directory part of a name, "" if there is none.
unfoldable pub parent : Text → Option Text
parent [] = none
parent (c ∷ s) =
    let rest = parent s in
    elim rest [ some p ↦ some (c ∷ p) | none ↦ if byte_eq c b'/' then some [] else none ]

directory_of : Entry → List Text
directory_of (dir n _) = n ∷ []
directory_of _ = []

listed : List Text → Option Text → Bool
listed known none = true
listed [] (some p) = false
listed (d ∷ known) (some p) = d == p || listed known (some p)

-- Each entry that is not at the top stands behind its directory.
pub parents_first : List Text → List Entry → Bool
parents_first known [] = true
parents_first known (e ∷ es) =
    listed known (parent (name_of e)) && parents_first (directory_of e ++ known) es

pub initramfs_entries-parents_first :
    (init pem hcl : Text) → parents_first [] (initramfs_entries init pem hcl) ≡ true
unfolding initramfs_entries parents_first listed directory_of parent directories ascii Text-discrete
initramfs_entries-parents_first init [] [] = refl
initramfs_entries-parents_first init [] (c ∷ hcl) = refl
initramfs_entries-parents_first init (c ∷ pem) [] = refl
initramfs_entries-parents_first init (c ∷ pem) (d ∷ hcl) = refl
