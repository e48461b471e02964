-- ===== src/Build/Initramfs/Whole.antt =====
-- The whole of `buildInitramfs`: what is in the file that it leaves.
use uki.Base.{Text, true, List, [], ◌∷◌, ◌++◌, map, ◌≡◌, refl}
use uki.Effects.{Env, Event, Handle, History, read_file, buffer, cpio_writer, cpio_close}
use uki.Effects.Hoare.{
  Triple, After, Triple-any, Triple-both, Triple-bind, Triple-logged, Triple-perform, Triple-weaken,
}
use uki.Effects.Grows.{Grows, Grows-bind, Triple-frame}
use uki.Effects.Grows.Calls.{grows}
use uki.Effects.Log.{Occurs, here, there}
use uki.Archive.{Written, both, written}
use uki.Build.Initramfs.{
  write_dirs, write_key, write_plan, write_entries, write_compressed, build_initramfs,
}
use uki.Build.Initramfs.Stored.{Finished, Compressed, Compressed-later, write_compressed-Compressed}
use uki.Build.Initramfs.Entries.{
  initramfs_entries, write_entries-Writes, parents_first, initramfs_entries-parents_first,
}

-- What a successful `buildInitramfs` has written.
pub record Packed ⦃env : Env⦄ (init_bin out pem hcl : Text) (before : List Written) (h : History)
    : Type 0 where
  pub init : Text
  pub raw : Handle
  pub writer : Handle
  pub read : Occurs (read_file init_bin) init h
  pub buffered : Occurs buffer raw h
  pub started : Occurs (cpio_writer raw) writer h
  pub compressed :
      Compressed out raw writer
        (before ++ map (λ e. (writer, e)) (initramfs_entries init pem hcl))
        h
  pub ordered : parents_first [] (initramfs_entries init pem hcl) ≡ true

pub Packed-later :
    ⦃env : Env⦄ (init_bin out pem hcl : Text) (before : List Written) (h : History) (e : Event)
    → written both (e ∷ h) ≡ written both h
    → Packed init_bin out pem hcl before h
    → Packed init_bin out pem hcl before (e ∷ h)
Packed-later init_bin out pem hcl before h e q p = record {
  init = p.init;
  raw = p.raw;
  writer = p.writer;
  read = there p.read;
  buffered = there p.buffered;
  started = there p.started;
  compressed = Compressed-later _ _ _ _ h e q p.compressed;
  ordered = p.ordered;
}

module _ ⦃env : Env⦄ where
  Grows-write_dirs : (w : Handle) (ds : List Text) → Grows (write_dirs w ds)
  unfolding write_dirs
  Grows-write_dirs w [] = search grows
  Grows-write_dirs w (d ∷ ds) = Grows-bind _ _ (search grows) (λ _. Grows-write_dirs w ds)

  Grows-write_entries : (w : Handle) (init pem hcl : Text) → Grows (write_entries w init pem hcl)
  unfolding write_entries write_key write_plan
  Grows-write_entries w init pem hcl = search (grows, Grows-write_dirs) depth 16

  Grows-write_compressed : (out : Text) (raw : Handle) → Grows (write_compressed out raw)
  unfolding write_compressed
  Grows-write_compressed out raw = search grows depth 16

  -- The writer is closed last.
  write_entries-closed :
      (w : Handle) (init pem hcl : Text)
      → Triple
          (λ _. Unit {0})
          (write_entries w init pem hcl)
          (λ _. Occurs (cpio_close w) tt)
          (λ _. Unit {0})
  unfolding write_entries
  write_entries-closed w init pem hcl = Triple-bind _ _ _ (Triple-any _) (λ _.
      Triple-bind _ _ _ (Triple-any _) (λ _. Triple-bind _ _ _ (Triple-any _) (λ _.
        Triple-bind _ _ _ (Triple-any _) (λ _. Triple-bind _ _ _ (Triple-any _) (λ _.
          Triple-bind _ _ _ (Triple-any _) (λ _.
            Triple-bind _ _ _ (Triple-any _)
              (λ _. Triple-perform (cpio_close w) (λ h a u. here) (λ h x u. tt))))))))

  write_entries-Finished :
      (w : Handle) (init pem hcl : Text) (l : List Written)
      → Triple
          (λ h. written both h ≡ l)
          (write_entries w init pem hcl)
          (λ _. Finished w (l ++ map (λ e. (w, e)) (initramfs_entries init pem hcl)))
          (λ _. Unit {0})
  write_entries-Finished w init pem hcl l =
      Triple-weaken _
        (Triple-both _ ((write_entries-Writes w init pem hcl).at l) (
          Triple-weaken _ (write_entries-closed w init pem hcl) (λ h e. tt) (λ _ h o. o)
            (λ h u. u)))
        (λ h e. e) (λ _ h q. q) (λ h q. tt)

module _ ⦃env : Env⦄ (init_bin out pem hcl : Text) (l : List Written) where
  pub build_initramfs-Packed_triple :
      Triple
        (λ h. written both h ≡ l)
        (build_initramfs init_bin out pem hcl)
        (λ _. Packed init_bin out pem hcl l)
        (λ _. Unit {0})
  unfolding build_initramfs
  build_initramfs-Packed_triple =
      Triple-logged _ _ _ (λ k r e. e)
        (Triple-bind (λ init k. Occurs (read_file init_bin) init k × (written both k ≡ l)) _ _
          (Triple-perform (read_file init_bin) (λ k init e. (here, e)) (λ k x e. tt))
          (λ init.
            Triple-bind
              (λ raw k.
                Occurs (read_file init_bin) init k × Occurs buffer raw k × (written both k ≡ l))
              _ _ (Triple-perform buffer (λ k raw (o, e). (there o, here, e)) (λ k x e. tt))
              (λ raw.
                Triple-bind
                  (λ w k.
                    (Occurs (read_file init_bin) init k
                      × Occurs buffer raw k
                      × Occurs (cpio_writer raw) w k)
                    × (written both k ≡ l))
                  _ _
                  (Triple-perform (cpio_writer raw) (λ k w (o, b, e). ((there o, there b, here), e))
                    (λ k x e. tt))
                  (λ w.
                    Triple-weaken _
                      (Triple-frame
                        (λ k.
                          Occurs (read_file init_bin) init k
                          × Occurs buffer raw k
                          × Occurs (cpio_writer raw) w k)
                        _ (record { later = λ k e (o, b, s). (there o, there b, there s) })
                        (Grows-bind _ _ (Grows-write_entries w init pem hcl)
                          (λ _. Grows-write_compressed out raw))
                        (Triple-bind _ _ _ (write_entries-Finished w init pem hcl l)
                          (λ _. write_compressed-Compressed out raw w _)))
                      (λ k q. q)
                      (λ _ k ((o, b, s), c). record {
                        init = init;
                        raw = raw;
                        writer = w;
                        read = o;
                        buffered = b;
                        started = s;
                        compressed = c;
                        ordered = initramfs_entries-parents_first init pem hcl;
                      })
                      (λ k q. tt)))))

-- If `buildInitramfs` returns no error, one archive got exactly these entries, in this order: the
-- eight directories, the two device nodes, `init` with the content of the binary, the link
-- `sbin/init`, the key if it is not empty, and the plan with its directory if it is not empty; no
-- other entry was written. Each entry comes behind the entry of its directory. When all of them
-- were written and the archive was closed, its bytes were taken from the buffer, and they went to
-- the file `out` through a compressor that was closed after them.
pub build_initramfs-Packed :
    ⦃env : Env⦄ (init_bin out pem hcl : Text) (h : History)
    → After
        (λ _. Packed init_bin out pem hcl (written both h))
        (λ _. Unit {0})
        (build_initramfs init_bin out pem hcl h)
build_initramfs-Packed init_bin out pem hcl h =
    (build_initramfs-Packed_triple init_bin out pem hcl (written both h)).at h refl
