-- ===== src/Build/Faults.antt =====
-- When `Build` returns an error.
use uki.Base.{
  ℕ, Text, ascii, String, List, [], ◌∷◌, ◌≡◌, ◌⊎◌, inl, inr, refl, arith, not, ◌&&◌, is_empty,
  if◌then◌else◌,
}
use uki.FilePath
use uki.Uki.Refusal.{RefusedFor, RefusedFor-later, AtLeast, Excused, Triple-honest, uki-Excused}
use uki.Effects.{
  Env, Event, Exec, History, Handle, Error, Result, ok, err, pure, fail, succeeds, ignoring,
  remove_all, ◌>>=◌, Call, perform,
}
use uki.Effects.Hoare.{
  Triple, After, Keeps, Triple-bind, Triple-weaken, Triple-if, Triple-deferring, Triple-ignoring,
  Triple-perform,
}
use uki.Effects.Faults.{failures, IsHonest, IsHonest-pure, IsHonest-bind}
use uki.Build.Cmdline.{build_cmdline}
use uki.Effects.Faults.Calls.{honest}
use uki.Build.Opts.{Opts}
use uki.Build.Init.{locate_init_module, build_init}
use uki.Build.Initramfs.{
  write_dirs, write_key, write_plan, write_entries, write_compressed, build_initramfs,
}
use uki.Build.Images.{run, truncate, append_bytes, build_esp, build_iso}
use uki.Build.Pipeline.{require_tools, work_dir, read_optional, append_userspace, assemble, build}

module _ ⦃env : Env⦄ where
  -- A test by one call, and an error if the call failed.
  IsHonest-test :
      (c : Call) (t : Text) (e : Error)
      → IsHonest (succeeds (perform c) >>= λ found. if found then pure t else fail e)
  unfolding succeeds perform ◌>>=◌ pure fail
  IsHonest-test c t e = record { at = λ h. ground arith }

  IsHonest-build_init : (out goarch : Text) → IsHonest (build_init out goarch)
  unfolding build_init locate_init_module
  IsHonest-build_init out goarch = search (honest, IsHonest-test) depth 12

  IsHonest-build_esp : (efi name out : Text) → IsHonest (build_esp efi name out)
  unfolding build_esp run truncate
  IsHonest-build_esp efi name out = search honest depth 12

  IsHonest-build_iso : (esp out : Text) → IsHonest (build_iso esp out)
  unfolding build_iso run
  IsHonest-build_iso esp out = search honest depth 12

  IsHonest-write_dirs : (w : Handle) (ds : List Text) → IsHonest (write_dirs w ds)
  unfolding write_dirs
  IsHonest-write_dirs w [] = IsHonest-pure tt
  IsHonest-write_dirs w (d ∷ ds) = IsHonest-bind _ _ (search honest) (λ _. IsHonest-write_dirs w ds)

  IsHonest-write_entries :
      (w : Handle) (init pem hcl : Text) → IsHonest (write_entries w init pem hcl)
  unfolding write_entries write_key write_plan
  IsHonest-write_entries w init pem hcl = search (honest, IsHonest-write_dirs) depth 16

  IsHonest-build_initramfs : (bin out pem hcl : Text) → IsHonest (build_initramfs bin out pem hcl)
  unfolding build_initramfs write_compressed
  IsHonest-build_initramfs bin out pem hcl = search (honest, IsHonest-write_entries) depth 16

  IsHonest-read_optional :
      (failure message : String) (p : Text) → IsHonest (read_optional failure message p)
  unfolding read_optional
  IsHonest-read_optional failure message p = search honest depth 12

  IsHonest-append_userspace : (a b : Text) → IsHonest (append_userspace a b)
  unfolding append_userspace append_bytes
  IsHonest-append_userspace a b = search honest depth 12

  IsHonest-require_tools : (tools : List Text) → IsHonest (require_tools tools)
  unfolding require_tools
  IsHonest-require_tools [] = IsHonest-pure tt
  IsHonest-require_tools (t ∷ tools) =
      IsHonest-bind _ _ (search honest) (λ _. IsHonest-require_tools tools)

  IsHonest-work_dir : (given : Text) → IsHonest (work_dir given)
  unfolding work_dir
  IsHonest-work_dir given = search honest depth 9

-- The appender refuses the image that `Build` puts together in some directory.
abbrev pub Refused : ⦃env : Env⦄ → Opts → History → Type 0
Refused o h =
    (wd : Text) × RefusedFor
      (record {
        stub = o.stub;
        linux = o.kernel;
        initrd = FilePath.join (wd ∷ ascii "initramfs.cpio.gz" ∷ []);
        cmdline = build_cmdline o;
        os_rel = [];
        uname = o.uname;
      })
      h

module _ ⦃env : Env⦄ (n : ℕ) (o : Opts) where
  abbrev Excuse : History → Type 0
  Excuse = Excused n (Refused o)

  honestly :
      {A : Type 0} (m : Exec A) → IsHonest m → Triple (AtLeast n) m (λ (_ : A). AtLeast n) Excuse
  honestly m b = Triple-honest n (Refused o) m b

  assemble-Excuse : (wd : Text) → Triple (AtLeast n) (assemble o wd) (λ _. AtLeast n) Excuse
  unfolding assemble
  assemble-Excuse wd =
      Triple-bind (λ _. AtLeast n) _ _ (honestly _ (IsHonest-build_init _ _))
        (λ _.
          Triple-bind (λ _. AtLeast n) _ _ (honestly _ (IsHonest-read_optional _ _ _))
            (λ pem.
              Triple-bind (λ _. AtLeast n) _ _ (honestly _ (IsHonest-read_optional _ _ _))
                (λ hcl.
                  Triple-bind (λ _. AtLeast n) _ _ (honestly _ (IsHonest-build_initramfs _ _ _ _))
                    (λ _.
                      Triple-bind (λ _. AtLeast n) _ _ (honestly _ (IsHonest-append_userspace _ _))
                        (λ _.
                          Triple-bind (λ _. AtLeast n) _ _ (honestly _ (search honest))
                            (λ _.
                              Triple-bind (λ _. AtLeast n) _ _
                                (Triple-weaken _ (uki-Excused n _ _) (λ h e. e) (λ _ h e. e)
                                  (λ h x. elim x [ inl e ↦ inl e | inr r ↦ inr (wd, r) ]))
                                (λ _. honestly _ (
                                  search (honest, IsHonest-build_esp, IsHonest-build_iso) depth
                                    12))))))))

  -- The directory is removed also where the build failed.
  removed : (wd : Text) → Keeps Excuse (ignoring (perform (remove_all wd)))
  removed wd =
      Triple-ignoring _
        (Triple-perform (remove_all wd) (λ h a x. later h _ x) (λ h e x. later h _ x))
    where
      later : (h : History) (e : Event) → Excuse h → Excuse (e ∷ h)
      later h e (inl l) = inl (omega (arith, l))
      later h e (inr (wd, r)) = inr (wd, RefusedFor-later e r)

  build-Excuse : Triple (AtLeast n) (build o) (λ _. AtLeast n) Excuse
  unfolding build
  build-Excuse =
      Triple-bind (λ _. AtLeast n) _ _ (honestly _ (IsHonest-require_tools _))
        (λ _.
          Triple-bind (λ _. AtLeast n) _ _ (honestly _ (IsHonest-work_dir _))
            (λ wd.
              Triple-bind (λ _. AtLeast n) _ _ (honestly _ (search honest))
                (λ _.
                  Triple-if (not o.keep && is_empty o.work_dir) _ _
                    (λ _.
                      Triple-deferring _ _
                        (λ _. Triple-ignoring _ (
                          Triple-perform (remove_all wd) (λ h a e. omega (arith, e))
                            (λ h x e. omega (arith, e))))
                        (removed wd) (assemble-Excuse wd))
                    (λ _. assemble-Excuse wd))))

-- If none of the calls of `Build` was answered with an error, `Build` returns no error, or the
-- appender refused, for a stub, a kernel and an initramfs that `Build` has read, this stub with
-- the sections of the image: the default `.osrel`, the command line, the release, the kernel and
-- the initramfs.
pub build_complete :
    ⦃env : Env⦄ (o : Opts) (h : History)
    → failures (build o h).1 ≡ failures h
    → ((build o h).0 ≡ ok tt) ⊎ Refused o (build o h).1
build_complete o h quiet = go (build o h) quiet ((build-Excuse (failures h) o).at h (omega arith))
  where
    go :
        (x : Result (Unit {0}) × History)
        → failures x.1 ≡ failures h
        → After (λ _. AtLeast (failures h)) (Excused (failures h) (Refused o)) x
        → (x.0 ≡ ok tt) ⊎ Refused o x.1
    go (ok tt, k) q e = inl refl
    go (err e, k) q (inl l) = absurd (omega (arith, q, l))
    go (err e, k) q (inr r) = inr r
