-- ===== src/Push/Modpack/Mirror/Whole.antt =====
-- What `packModules` leaves in the file.
use uki.Base.{Text, ascii, List, [], ◌∷◌, ◌++◌, append_assoc, ◌≡◌, refl, ◌∙◌, not}
use uki.Effects.{
  ◌>>◌, Env, Event, Call, Reply, Result, Handle, History, ok, err, perform, ignoring, stat, create,
  close, gzip_writer, gzip_close, cpio_writer, cpio_close, cpio_dir, with_file,
}
use uki.Effects.Hoare.{
  Triple, After, Triple-bind, Triple-perform, Triple-weaken, Triple-fail_if, Triple-deferring,
  Triple-ignoring,
}
use uki.Effects.Log.{Occurs, here, there}
use uki.Effects.Grows.{Triple-frame}
use uki.Effects.Only.Growth.{Only-Grows}
use uki.Archive.{Written, both, dir, written}
use uki.Push.Modpack.{walk, write_archive, pack_modules}
use uki.Push.Modpack.Local.{write_archive-IsLocal, walk-IsLocal}
use uki.Push.Modpack.Mirror.{Mirrors, Mirrors-later}
use uki.Push.Modpack.Mirror.Walk.{Added, walk-Added}

module _ ⦃env : Env⦄ (src : Text) where
  -- `gz` got a whole archive: it was opened, two directories and the tree were written, and it was
  -- closed.
  pub record Archived (gz : Handle) (before : List Written) (h : History) : Type 0 where
    pub writer : Handle
    pub entries : List Written
    pub started : Occurs (cpio_writer gz) writer h
    pub mirrored : Mirrors src writer h src (env.tree src) entries
    pub written_all :
        written both h
        ≡ before
          ++ (writer, dir (ascii "lib") 0o755) ∷ (writer, dir (ascii "lib/modules") 0o755) ∷ entries
    pub closed : Occurs (cpio_close writer) tt h

  Archived-later :
      (gz : Handle) (before : List Written) (h : History) (e : Event)
      → written both (e ∷ h) ≡ written both h
      → Archived gz before h
      → Archived gz before (e ∷ h)
  Archived-later gz before h e q a = record {
    writer = a.writer;
    entries = a.entries;
    started = there a.started;
    mirrored = Mirrors-later e a.mirrored;
    written_all = q ∙ a.written_all;
    closed = there a.closed;
  }

  -- The file was created, and its compressor got the archive.
  pub record Packed (out : Text) (before : List Written) (h : History) : Type 0 where
    pub output : Handle
    pub gz : Handle
    pub created : Occurs (create out) output h
    pub compressed : Occurs (gzip_writer output) gz h
    pub archived : Archived gz before h

  Packed-later :
      (out : Text) (before : List Written) (h : History) (e : Event)
      → written both (e ∷ h) ≡ written both h
      → Packed out before h
      → Packed out before (e ∷ h)
  Packed-later out before h e q p = record {
    output = p.output;
    gz = p.gz;
    created = there p.created;
    compressed = there p.compressed;
    archived = Archived-later p.gz before h e q p.archived;
  }

  -- A deferred call that writes no entry.
  closed :
      (out : Text) (l : List Written) (c : Call)
      → ((h : History) (r : Result (Reply c))
          → written both (record { call = c; reply = r } ∷ h) ≡ written both h)
      → Triple (Packed out l) (ignoring (perform c)) (λ _. Packed out l) (Packed out l)
  closed out l c q = Triple-ignoring _ (
      Triple-perform c (λ h a p. Packed-later out l h _ (q h (ok a)) p)
        (λ h x p. Packed-later out l h _ (q h (err x)) p))

  ends :
      (c : Call) → Triple (λ _. Unit {0}) (ignoring (perform c)) (λ _ _. Unit {0}) (λ _. Unit {0})
  ends c = Triple-ignoring _ (Triple-perform c (λ h a p. tt) (λ h x p. tt))

  -- The entries of the two directories in the writer `w`.
  abbrev parents : Handle → List Written
  parents w = (w, dir (ascii "lib") 0o755) ∷ (w, dir (ascii "lib/modules") 0o755) ∷ []

  -- The walk and the end of the archive.
  walk-Archived :
      (gz w : Handle) (l : List Written)
      → Triple
          (λ h. Occurs (cpio_writer gz) w h × (written both h ≡ l ++ parents w))
          (walk src w src (env.tree src) >> perform (cpio_close w))
          (λ _. Archived gz l)
          (λ _. Unit {0})
  walk-Archived gz w l =
      Triple-bind
        (λ _ h. Occurs (cpio_writer gz) w h × Added src w (l ++ parents w) src (env.tree src) h) _ _
        (Triple-weaken _
          (Triple-frame (Occurs (cpio_writer gz) w) _ (record { later = λ k e o. there o })
            (Only-Grows _ (walk-IsLocal src w (env.tree src) src))
            (walk-Added src w (env.tree src) _ src))
          (λ h q. q) (λ _ h q. q) (λ h q. tt))
        (λ _.
          Triple-perform (cpio_close w)
            (λ h a (o, (es, e, m)). record {
              writer = w;
              entries = es;
              started = there o;
              mirrored = Mirrors-later _ m;
              written_all = e ∙ append_assoc l (parents w) es;
              closed = here;
            })
            (λ h x q. tt))

  write_archive-Archived :
      (gz : Handle) (l : List Written)
      → Triple (λ h. written both h ≡ l) (write_archive src gz) (λ _. Archived gz l) (λ _. Unit {0})
  unfolding write_archive
  write_archive-Archived gz l =
      Triple-bind (λ w h. Occurs (cpio_writer gz) w h × (written both h ≡ l)) _ _
        (Triple-perform (cpio_writer gz) (λ h w e. (here, e)) (λ h x e. tt))
        (λ w.
          Triple-bind
            (λ _ h.
              Occurs (cpio_writer gz) w h
              × (written both h ≡ l ++ (w, dir (ascii "lib") 0o755) ∷ []))
            _ _ (Triple-perform (cpio_dir w _ _) (λ h a (o, e). (there o, rw e)) (λ h x q. tt))
            (λ _.
              Triple-bind (λ _ h. Occurs (cpio_writer gz) w h × (written both h ≡ l ++ parents w)) _
                _
                (Triple-perform (cpio_dir w _ _)
                  (λ h a (o, e). (there o, rw e (append_assoc l (_ ∷ []) (_ ∷ [])))) (λ h x q. tt))
                (λ _. walk-Archived gz w l)))

  pub pack_modules_triple :
      (out : Text) (l : List Written)
      → Triple (λ h. written both h ≡ l) (pack_modules src out) (λ _. Packed out l) (λ _. Unit {0})
  unfolding pack_modules with_file
  pack_modules_triple out l =
      Triple-bind (λ _ h. written both h ≡ l) _ _
        (Triple-perform (stat src) (λ h d e. e) (λ h x e. tt))
        (λ is_dir.
          Triple-bind (λ _ h. written both h ≡ l) _ _
            (Triple-fail_if (not is_dir) _ (λ h _ e. e) (λ h e. tt))
            (λ _.
              Triple-bind (λ f h. Occurs (create out) f h × (written both h ≡ l)) _ _
                (Triple-perform (create out) (λ h f e. (here, e)) (λ h x e. tt))
                (λ f.
                  Triple-deferring _ _ (λ _. closed out l (close f) (λ h r. refl)) (ends (close f))
                    (Triple-bind
                      (λ gz h.
                        (Occurs (create out) f h × Occurs (gzip_writer f) gz h)
                        × (written both h ≡ l))
                      _ _
                      (Triple-perform (gzip_writer f) (λ h gz (o, e). ((there o, here), e))
                        (λ h x q. tt))
                      (λ gz.
                        Triple-deferring _ _ (λ _. closed out l (gzip_close gz) (λ h r. refl))
                          (ends (gzip_close gz))
                          (Triple-weaken _
                            (Triple-frame
                              (λ k. Occurs (create out) f k × Occurs (gzip_writer f) gz k) _
                              (record { later = λ k e (o, z). (there o, there z) })
                              (Only-Grows _ (write_archive-IsLocal src gz))
                              (write_archive-Archived gz l))
                            (λ h q. q)
                            (λ _ h ((o, z), a). record {
                              output = f;
                              gz = gz;
                              created = o;
                              compressed = z;
                              archived = a;
                            })
                            (λ h q. tt)))))))

-- If `packModules` returns no error, the file `out` was created, and its compressor got an archive
-- that was opened, filled and closed: `lib`, `lib/modules`, and one entry for each directory, link
-- and file that was found at `src`, in the order of the walk, with the permissions, the target or
-- the content that was read at its path; no part of the tree was unreadable, and no other entry was
-- written, to this archive or to another.
pub pack_modules-Packed :
    ⦃env : Env⦄ (src out : Text) (h : History)
    → After (λ _. Packed src out (written both h)) (λ _. Unit {0}) (pack_modules src out h)
pack_modules-Packed src out h = (pack_modules_triple src out (written both h)).at h refl
