-- ===== src/Build/Initramfs/Stored.antt =====
-- How `buildInitramfs` stores an archive in its file.
use uki.Base.{Text, List, ◌∷◌, ◌≡◌, refl, ◌∙◌}
use uki.Effects.{
  ◌>>=◌, ◌>>◌, Env, Event, Handle, History, ignoring, cpio_close, perform, gzip_writer, gzip_write,
  gzip_close, buffer_bytes, create, close, with_file,
}
use uki.Effects.Hoare.{
  Triple, Triple-any, Triple-bind, Triple-deferring, Triple-ignoring, Triple-perform,
}
use uki.Effects.Log.{Occurs, here, there, OccursWhen, here_when, there_when}
use uki.Archive.{Written, both, written}
use uki.Build.Initramfs.{write_compressed}

-- The entries are written, and the writer `w` is closed.
abbrev pub Finished : Handle → List Written → History → Type 0
Finished w all h = (written both h ≡ all) × Occurs (cpio_close w) tt h

-- The buffer `raw` of the writer `w` was taken when the archive was finished, and the file `out`
-- got its bytes through a compressor, which was closed after them.
pub record Compressed ⦃env : Env⦄ (out : Text) (raw w : Handle) (all : List Written) (h : History)
    : Type 0 where
  pub output : Handle
  pub gz : Handle
  pub bytes : Text
  pub created : Occurs (create out) output h
  pub compressor : Occurs (gzip_writer output) gz h
  pub drained : OccursWhen (Finished w all) (buffer_bytes raw) bytes h
  pub stored : OccursWhen (Occurs (gzip_write gz bytes) tt) (gzip_close gz) tt h
  pub all_written : written both h ≡ all

module _ ⦃env : Env⦄ (out : Text) (raw w : Handle) (all : List Written) where
  pub Compressed-later :
      (h : History) (e : Event)
      → written both (e ∷ h) ≡ written both h
      → Compressed out raw w all h
      → Compressed out raw w all (e ∷ h)
  Compressed-later h e q c = record {
    output = c.output;
    gz = c.gz;
    bytes = c.bytes;
    created = there c.created;
    compressor = there c.compressor;
    drained = there_when c.drained;
    stored = there_when c.stored;
    all_written = q ∙ c.all_written;
  }

  closed :
      (f : Handle)
      → Triple
          (Compressed out raw w all)
          (ignoring (perform (close f)))
          (λ _. Compressed out raw w all)
          (Compressed out raw w all)
  closed f = Triple-ignoring _ (
      Triple-perform (close f) (λ h a c. Compressed-later h _ refl c)
        (λ h x c. Compressed-later h _ refl c))

  -- From the compressor on.
  stored-Compressed :
      (f gz : Handle)
      → Triple
          (λ h. Occurs (create out) f h × Occurs (gzip_writer f) gz h × Finished w all h)
          (perform (buffer_bytes raw) >>= λ bytes.
            perform (gzip_write gz bytes) >> perform (gzip_close gz))
          (λ _. Compressed out raw w all)
          (λ _. Unit {0})
  stored-Compressed f gz =
      Triple-bind
        (λ bytes h.
          Occurs (create out) f h
          × Occurs (gzip_writer f) gz h
          × OccursWhen (Finished w all) (buffer_bytes raw) bytes h
          × (written both h ≡ all))
        _ _
        (Triple-perform (buffer_bytes raw)
          (λ h bytes (c, z, (e, o)). (there c, there z, here_when (e, o), e)) (λ h x e. tt))
        (λ bytes.
          Triple-bind
            (λ _ h.
              Occurs (create out) f h
              × Occurs (gzip_writer f) gz h
              × OccursWhen (Finished w all) (buffer_bytes raw) bytes h
              × Occurs (gzip_write gz bytes) tt h
              × (written both h ≡ all))
            _ _
            (Triple-perform (gzip_write gz bytes)
              (λ h _ (c, z, d, e). (there c, there z, there_when d, here, e)) (λ h x e. tt))
            (λ _.
              Triple-perform (gzip_close gz)
                (λ h _ (c, z, d, s, e). record {
                  output = f;
                  gz = gz;
                  bytes = bytes;
                  created = there c;
                  compressor = there z;
                  drained = there_when d;
                  stored = here_when s;
                  all_written = e;
                })
                (λ h x e. tt)))

  pub write_compressed-Compressed :
      Triple
        (Finished w all)
        (write_compressed out raw)
        (λ _. Compressed out raw w all)
        (λ _. Unit {0})
  unfolding write_compressed with_file
  write_compressed-Compressed =
      Triple-bind (λ f h. Occurs (create out) f h × Finished w all h) _ _
        (Triple-perform (create out) (λ h f (e, o). (here, (e, there o))) (λ h x e. tt))
        (λ f.
          Triple-deferring _ _ (λ _. closed f) (Triple-any _)
            (Triple-bind
              (λ gz h. Occurs (create out) f h × Occurs (gzip_writer f) gz h × Finished w all h) _ _
              (Triple-perform (gzip_writer f) (λ h gz (c, (e, o)). (there c, here, (e, there o)))
                (λ h x e. tt))
              (stored-Compressed f)))
