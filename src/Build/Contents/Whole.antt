-- ===== src/Build/Contents/Whole.antt =====
-- The whole of `Build`, and the entries that it writes.
use uki.Base.{Text, is_empty, String, List, [], ◌∷◌, ◌≡◌, refl, inl, inr, ◌∙◌, not, ◌&&◌}
use uki.Effects.{
  Env, Event, Exec, History, mkdir_temp, mkdir_all, ◌>>◌, read_file, remove_all, ignoring, perform,
}
use uki.Effects.Hoare.{
  Triple, After, Triple-bind, Triple-logged, Triple-perform, Triple-weaken, Triple-if, Triple-pure,
  Triple-wrapping, Triple-deferring, Triple-any,
}
use uki.Effects.Log.{here}
use uki.Effects.Only.{Only-bind, Only}
use uki.Effects.Only.Growth.{Triple-only, Only-Grows}
use uki.Effects.Grows.{Triple-frame}
use uki.Build.Local.{IsLocal-build_initramfs, IsLocal-assemble}
use uki.Effects.Only.Calls.{only}
use uki.Archive.{Written, both, written}
use uki.Build.Opts.{Opts}
use uki.Build.Initramfs.{build_initramfs}
use uki.Build.Initramfs.Whole.{Packed, Packed-later, build_initramfs-Packed_triple}
use uki.Build.Pipeline.{read_optional, append_userspace, work_dir, assemble, build}
use uki.Build.Contents.{
  IsPlain, written-IsPlain, Filled-later, Shipped-later, IsShipped, sections, IsContent,
  IsContent-later, IsWork, IsWork-later, init_path, archive_path, Filled, Contents, Contents-later,
}
use uki.Build.Contents.Image.{build-Shipped}
use uki.Build.Contents.Userspace.{append_userspace-Extended}
use uki.Build.Contents.Plain.{
  IsPlain-build_esp, IsPlain-build_iso, IsPlain-append_userspace, IsPlain-build_init,
  IsPlain-require_tools, IsPlain-read_optional,
}

module _ ⦃env : Env⦄ (o : Opts) (l : List Written) where
  read_optional-IsContent :
      (failure message : String) (path : Text)
      → Triple
          (λ h. written both h ≡ l)
          (read_optional failure message path)
          (λ t h. IsContent path t h × (written both h ≡ l))
          (λ _. Unit {0})
  unfolding read_optional
  read_optional-IsContent failure message path =
      Triple-if (is_empty path) _ _ (λ e. Triple-pure [] (λ h q. (inl (e, refl), q)))
        (λ n.
          Triple-bind (λ t h. IsContent path t h × (written both h ≡ l)) _ _
            (Triple-wrapping failure [] _
              (Triple-perform (read_file path) (λ h t q. (inr (n, here), q)) (λ h x q. tt)))
            (λ t.
              Triple-logged _ _ _ (λ h r (c, q). (IsContent-later h _ c, q))
                (Triple-pure t (λ h c. c))))

  -- The key and the plan were read, and nothing is written yet.
  abbrev BothRead : Text → Text → History → Type 0
  BothRead key plan h = IsContent o.cosign_key key h × IsContent o.plan_file plan h

  BothRead-later :
      (key plan : Text) (h : History) (e : Event) → BothRead key plan h → BothRead key plan (e ∷ h)
  BothRead-later key plan h e (k, p) = (IsContent-later h e k, IsContent-later h e p)

  -- The initramfs, what is appended to it, and an action behind.
  initramfs-Filled :
      (wd key plan : Text) (m : Exec (Unit {0})) (Q : History → Type 0)
      → Triple (Filled o wd l) m (λ _. Q) (λ _. Unit {0})
      → Triple
          (λ h. BothRead key plan h × (written both h ≡ l))
          (build_initramfs (init_path wd) (archive_path wd) key plan
            >> (append_userspace (archive_path wd) o.zfs_userspace_cpio >> m))
          (λ _. Q)
          (λ _. Unit {0})
  initramfs-Filled wd key plan m Q t =
      let packed = Packed (init_path wd) (archive_path wd) key plan l in
      let later = λ (h : History) (e : Event) (q : IsPlain e.call).
        Packed-later (init_path wd) (archive_path wd) key plan l h e
          (written-IsPlain h e.call e.reply q) in
      Triple-bind (λ _ h. BothRead key plan h × packed h) _ _
        (Triple-weaken _
          (Triple-frame (BothRead key plan) _ (record { later = BothRead-later key plan })
            (Only-Grows _ (IsLocal-build_initramfs _ _ _ _))
            (build_initramfs-Packed_triple _ _ key plan l))
          (λ h q. q) (λ _ h q. q) (λ h q. tt))
        (λ _.
          Triple-bind (λ _. Filled o wd l) _ _
            (Triple-weaken _
              (Triple-frame (BothRead key plan) _ (record { later = BothRead-later key plan })
                (Only-Grows _ (IsPlain-append_userspace _ _))
                (append_userspace-Extended packed later _ _))
              (λ h q. q)
              (λ _ h ((k, p), (q, u)). record {
                key = key;
                plan = plan;
                key_read = k;
                plan_read = p;
                packed = q;
                userspace = u;
              })
              (λ h q. tt))
            (λ _. t))

  -- The filled initramfs, and the image that it is in.
  abbrev Done : Text → History → Type 0
  Done wd h = Filled o wd l h × IsShipped o wd l h

  -- A plain action before the archive is written.
  plain_start :
      {A : Type 0} (m : Exec A)
      → Only IsPlain m
      → Triple (λ h. written both h ≡ l) m (λ _ h. written both h ≡ l) (λ _. Unit {0})
  plain_start m p =
      Triple-weaken m
        (Triple-only IsPlain (λ h. written both h ≡ l) m
          (λ h e q w. written-IsPlain h e.call e.reply q ∙ w) p)
        (λ h q. q) (λ _ h q. q) (λ h q. tt)

  assemble-Filled :
      (wd : Text) → Triple (λ h. written both h ≡ l) (assemble o wd) (λ _. Done wd) (λ _. Unit {0})
  unfolding assemble
  assemble-Filled wd =
      Triple-bind (λ _ h. written both h ≡ l) _ _ (plain_start _ (IsPlain-build_init _ _))
        (λ _.
          Triple-bind (λ key h. IsContent o.cosign_key key h × (written both h ≡ l)) _ _
            (read_optional-IsContent _ _ _)
            (λ key.
              Triple-bind (λ plan h. BothRead key plan h × (written both h ≡ l)) _ _
                (Triple-weaken _
                  (Triple-frame (IsContent o.cosign_key key) _ (record { later = IsContent-later })
                    (Only-Grows _ (IsPlain-read_optional _ _ _)) (read_optional-IsContent _ _ _))
                  (λ h q. q) (λ _ h (k, (p, w)). ((k, p), w)) (λ h q. tt))
                (λ plan. initramfs-Filled wd key plan _ (Done wd) (
                  Triple-logged _ _ _ (λ h r f. Filled-later o l wd h _ tt f)
                    (Triple-bind (λ _. Done wd) _ _
                      (build-Shipped (Filled o wd l) (Filled-later o l wd) (sections o wd) _)
                      (λ _.
                        Triple-weaken _
                          (Triple-only IsPlain (Done wd) _
                            (λ h e q (f, x). (Filled-later o l wd h e q f, Shipped-later h e x))
                            (Only-bind _ _ (IsPlain-build_esp _ _ _)
                              (λ _. Only-bind _ _ (IsPlain-build_iso _ _) (λ _. search only))))
                          (λ h q. q) (λ _ h q. q) (λ h q. tt)))))))

  work_dir-IsWork :
      (given : Text)
      → Triple
          (λ h. written both h ≡ l)
          (work_dir given)
          (λ wd h. IsWork given wd h × (written both h ≡ l))
          (λ _. Unit {0})
  unfolding work_dir
  work_dir-IsWork given =
      Triple-if (is_empty given) _ _
        (λ none_given.
          Triple-perform (mkdir_temp _) (λ h wd e. (inl (none_given, here), e)) (λ h x e. tt))
        (λ some_given.
          Triple-bind (λ _ h. written both h ≡ l) _ _
            (Triple-perform (mkdir_all given 0o755) (λ h a e. e) (λ h x e. tt))
            (λ _. Triple-pure given (λ h e. (inr (some_given, refl), e))))

  assemble-Contents :
      (wd : Text)
      → Triple
          (λ h. IsWork o.work_dir wd h × (written both h ≡ l))
          (assemble o wd)
          (λ _. Contents o l)
          (λ _. Unit {0})
  assemble-Contents wd =
      Triple-weaken _
        (Triple-frame (IsWork o.work_dir wd) _ (record { later = IsWork-later })
          (Only-Grows _ (IsLocal-assemble o wd)) (assemble-Filled wd))
        (λ h q. q) (λ _ h (p, (f, x)). record { work = wd; placed = p; filled = f; shipped = x })
        (λ h q. tt)

  build-Contents_triple :
      Triple (λ h. written both h ≡ l) (build o) (λ _. Contents o l) (λ _. Unit {0})
  unfolding build
  build-Contents_triple =
      Triple-bind (λ _ h. written both h ≡ l) _ _ (plain_start _ (IsPlain-require_tools _))
        (λ _.
          Triple-bind (λ wd h. IsWork o.work_dir wd h × (written both h ≡ l)) _ _
            (work_dir-IsWork o.work_dir)
            (λ wd.
              Triple-logged _ _ _ (λ h r (p, e). (IsWork-later h _ p, e))
                (Triple-if (not o.keep && is_empty o.work_dir) _ _
                  (λ _.
                    Triple-deferring _ _
                      (λ _.
                        Triple-only IsPlain (Contents o l) (ignoring (perform (remove_all wd)))
                          (Contents-later o l) (search only))
                      (Triple-any _) (assemble-Contents wd))
                  (λ _. assemble-Contents wd))))

-- If `Build` returns no error, the entries that it wrote to archives are exactly those of one
-- `buildInitramfs` in the work directory, which is the given one or a new one: the directories,
-- the devices, `init` with the content that was read of the compiled program, the key and the
-- plan with the contents of the files that the options name, or without the entry where they
-- name none or where the file is empty. The finished archive is compressed into
-- `initramfs.cpio.gz`, and the userspace archive, if the options name one, is copied behind it.
-- After that, this file is read as the initrd of the image that is made, with the stub and the
-- kernel of the options, and written to the work directory.
pub build-Contents :
    ⦃env : Env⦄ (o : Opts) (h : History)
    → After (λ _. Contents o (written both h)) (λ _. Unit {0}) (build o h)
build-Contents o h = (build-Contents_triple o (written both h)).at h refl
