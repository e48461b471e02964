-- ===== src/Uki/Written.antt =====
-- What `Build` of internal/uki/uki.go writes.
use uki.Base.{Text, ascii, is_empty, if◌then◌else◌, List, [], ◌∷◌, ◌++◌, ◌≡◌, refl, ap}
use uki.Effects.{
  Env, History, Call, Reply, Result, ok, read_file, write_file, wrapping, lift, perform, ◌>>=◌,
}
use uki.Effects.Hoare.{Triple, After, Triple-bind, Triple-perform, Triple-wrapping, Triple-lift}
use uki.Effects.Log.{Occurs, here, there}
use uki.Uki.{Sections, sections_of, default_os_rel, build}

abbrev note : (c : Call) → Result (Reply c) → List (Text × Text) → List (Text × Text)
note (write_file path content _) (ok _) l = (path, content) ∷ l
note _ _ l = l

-- The files that were written whole, with their contents, the latest first.
abbrev pub files : History → List (Text × Text)
files [] = []
files (e ∷ h) = note e.call e.reply (files h)

-- The image was assembled from the contents of the three files, and written.
pub record Assembled ⦃env : Env⦄ (s : Sections) (out_path : Text) (before : List (Text × Text))
    (h : History) : Type 0 where
  pub stub : Text
  pub linux : Text
  pub initrd : Text
  pub image : Text
  pub stub_read : Occurs (read_file s.stub) stub h
  pub linux_read : Occurs (read_file s.linux) linux h
  pub initrd_read : Occurs (read_file s.initrd) initrd h
  pub appended :
      env.append_sections stub (
        record {
          name = ascii ".osrel";
          contents =
              if is_empty s.os_rel
              then ascii "ID=cloud-boot\nNAME=cloud-boot\nVERSION_ID=1\n"
              else s.os_rel;
        }
        ∷ record { name = ascii ".cmdline"; contents = s.cmdline ++ ascii "\n" }
        ∷ record { name = ascii ".uname"; contents = s.uname ++ ascii "\n" }
        ∷ record { name = ascii ".linux"; contents = linux }
        ∷ record { name = ascii ".initrd"; contents = initrd }
        ∷ [])
      ≡ ok image
  pub written : files h ≡ (out_path, image) ∷ before

-- From the appender on.
image-Assembled :
    ⦃env : Env⦄ (s : Sections) (out_path stub linux initrd : Text) (l : List (Text × Text))
    → Triple
        (λ k.
          Occurs (read_file s.stub) stub k
          × Occurs (read_file s.linux) linux k
          × Occurs (read_file s.initrd) initrd k
          × (files k ≡ l))
        (wrapping "uki: %w" [] (lift (env.append_sections stub (sections_of s linux initrd)))
          >>= λ image. perform (write_file out_path image 0o644))
        (λ _. Assembled s out_path l)
        (λ k. files k ≡ l)
unfolding sections_of default_os_rel
image-Assembled ⦃env⦄ s out_path stub linux initrd l =
    Triple-bind
      (λ image k.
        (env.append_sections stub (sections_of s linux initrd) ≡ ok image)
        × Occurs (read_file s.stub) stub k
        × Occurs (read_file s.linux) linux k
        × Occurs (read_file s.initrd) initrd k
        × (files k ≡ l))
      _ _
      (Triple-wrapping _ _ _
        (Triple-lift _ (λ k a r (o, p, q, e). (r, o, p, q, e)) (λ k (o, p, q, e). e)))
      (λ image.
        Triple-perform (write_file out_path image 0o644)
          (λ k a (r, o, p, q, e). record {
            stub = stub;
            linux = linux;
            initrd = initrd;
            image = image;
            stub_read = there o;
            linux_read = there p;
            initrd_read = there q;
            appended = r;
            written = ap (λ t. (out_path, image) ∷ t) e;
          })
          (λ k x (r, o, p, q, e). e))

-- If `uki.Build` returns no error, then stub, kernel and initrd were read, the appender made the
-- image from the stub and the five sections (`.osrel`, or the default text if it is empty, then
-- `.cmdline` and `.uname`, each with a newline, then `.linux` and `.initrd`, whole), and this
-- image, and no other file, was written to the output path. If it returns an error, the call that
-- writes the image was not answered with success.
pub build-Assembled :
    ⦃env : Env⦄ (s : Sections) (out_path : Text) (h : History)
    → After (λ _. Assembled s out_path (files h)) (λ h'. files h' ≡ files h) (build s out_path h)
unfolding build
build-Assembled s out_path h =
    let l = files h in
    let t : Triple (λ k. files k ≡ l) (build s out_path) (λ _. Assembled s out_path l)
        (λ k. files k ≡ l) =
      Triple-bind (λ stub k. Occurs (read_file s.stub) stub k × (files k ≡ l)) _ _
        (Triple-wrapping _ _ _
          (Triple-perform (read_file s.stub) (λ k a e. (here, e)) (λ k x e. e)))
        (λ stub.
          Triple-bind
            (λ linux k.
              Occurs (read_file s.stub) stub k × Occurs (read_file s.linux) linux k × (files k ≡ l))
            _ _
            (Triple-wrapping _ _ _ (
              Triple-perform (read_file s.linux) (λ k a (o, e). (there o, here, e))
                (λ k x (o, e). e)))
            (λ linux.
              Triple-bind
                (λ initrd k.
                  Occurs (read_file s.stub) stub k
                  × Occurs (read_file s.linux) linux k
                  × Occurs (read_file s.initrd) initrd k
                  × (files k ≡ l))
                _ _
                (Triple-wrapping _ _ _ (
                  Triple-perform (read_file s.initrd) (λ k a (o, p, e). (there o, there p, here, e))
                    (λ k x (o, p, e). e)))
                (λ initrd. image-Assembled s out_path stub linux initrd l))) in
    t.at h refl
