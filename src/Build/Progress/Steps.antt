-- ===== src/Build/Progress/Steps.antt =====
-- The parts of `Build` as steps of the relation.
use uki.Base.{ℕ, Text, ascii, is_set, ◌∷◌, ◌≡◌, refl, true, false, inl, inr, ◌<◌, arith}
use uki.FilePath
use uki.Uki
use uki.Uki.{sections_of}
use uki.Effects.{
  with_temp, Env, Call, Event, Exec, History, ok, run_in, run_command, write_file, read_file,
  mkdir_temp, stat, Reply, perform, remove_all, ignoring,
}
use uki.Base.{Bool}
use uki.Effects.Hoare.{
  Triple-succeeds, Triple-logged, Triple, Triple-bind, Triple-perform, Triple-wrapping, Triple-lift,
  Triple-deferring, Triple-weaken, Triple-if, Triple-pure, Triple-fail,
}
use uki.Effects.Log.{Occurs, here, there}
use uki.Effects.Only.{Only}
use uki.Effects.Only.Growth.{Triple-only}
use uki.Effects.Only.Calls.{only}
use uki.Build.Opts.{Opts}
use uki.Build.Init.{build_init, locate_init_module}
use uki.Build.Images.{readme_text, run, truncate, build_esp, build_iso}
use uki.Build.Progress.{
  IsQuiet, Progress, quiet, failed, compiled, linked, formatted, made_efi, made_boot, copied,
  staged, wrote_iso, sections, file_in, IsWorkDir, IsInitDir,
}

module _ ⦃env : Env⦄ (o : Opts) (wd : Text) (h0 : History) where
  -- Not all steps were done.
  abbrev pub Halted : History → Type 0
  Halted h = (n : ℕ) × (n < 8) × Progress o wd h0 n h

  pub Triple-idle :
      {A : Type 0} (n : ℕ) (m : Exec A)
      → n < 8
      → Only IsQuiet m
      → Triple (Progress o wd h0 n) m (λ _. Progress o wd h0 n) Halted
  Triple-idle n m l q =
      Triple-weaken m (Triple-only IsQuiet _ m (λ h e s p. quiet s p) q) (λ h p. p) (λ _ h p. p)
        (λ h p. (n, l, p))

  -- A call that does a step, or fails.
  pub Triple-step :
      (n : ℕ) (c : Call) {Q : Reply c → History → Type 0}
      → n < 8
      → ((h : History) (a : Reply c)
          → Progress o wd h0 n h
          → Q a (record { call = c; reply = ok a } ∷ h))
      → Triple (Progress o wd h0 n) (perform c) Q Halted
  Triple-step n c l q = Triple-perform c q (λ h e p. (n, l, failed p))

  pub esp_steps :
      Triple
        (Progress o wd h0 2)
        (build_esp (file_in wd o.arch.efi_name) o.arch.efi_name (file_in wd (ascii "efiboot.img")))
        (λ _. Progress o wd h0 6)
        Halted
  unfolding build_esp run truncate
  esp_steps =
      Triple-logged _ _ _ (λ h r p. quiet tt p)
        (Triple-bind (λ _. Progress o wd h0 2) _ _
          (Triple-idle 2 _ (omega arith) (search only depth 12))
          (λ _.
            Triple-bind (λ _. Progress o wd h0 3) _ _
              (Triple-step 2 (run_command _ _) (omega arith) (λ h a p. formatted p))
              (λ _.
                Triple-bind (λ _. Progress o wd h0 4) _ _
                  (Triple-step 3 (run_command _ _) (omega arith) (λ h a p. made_efi p))
                  (λ _.
                    Triple-bind (λ _. Progress o wd h0 5) _ _
                      (Triple-step 4 (run_command _ _) (omega arith) (λ h a p. made_boot p))
                      (λ _. Triple-step 5 (run_command _ _) (omega arith) (λ h a p. copied p))))))

  -- Removing a directory keeps a step.
  removed :
      (d : Text) (n : ℕ)
      → Triple
          (Progress o wd h0 n)
          (ignoring (perform (remove_all d)))
          (λ _. Progress o wd h0 n)
          (Progress o wd h0 n)
  removed d n = Triple-only IsQuiet _ _ (λ h e s p. quiet s p) (search only)

  removed-Halted :
      (d : Text) → Triple Halted (ignoring (perform (remove_all d))) (λ _. Halted) Halted
  removed-Halted d = Triple-only IsQuiet _ _ (λ h e s (n, l, p). (n, l, quiet s p)) (search only)

  pub iso_steps :
      Triple
        (Progress o wd h0 6)
        (build_iso (file_in wd (ascii "efiboot.img")) o.out)
        (λ _. Progress o wd h0 8)
        Halted
  unfolding build_iso run with_temp
  iso_steps =
      Triple-logged _ _ _ (λ h r p. quiet tt p)
        (Triple-bind (λ _. Progress o wd h0 6) _ _
          (Triple-wrapping _ _ _ (Triple-idle 6 _ (omega arith) (search only)))
          (λ _.
            Triple-bind (λ d h. Occurs (mkdir_temp (ascii "iso-stage-")) d h × Progress o wd h0 6 h)
              _ _ (Triple-step 6 (mkdir_temp _) (omega arith) (λ h d p. (here, quiet tt p)))
              (λ d.
                Triple-deferring _ _ (λ _. removed d 8) (removed-Halted d)
                  (Triple-bind
                    (λ _ h.
                      Occurs (write_file (file_in d (ascii "README.txt")) readme_text 0o644) tt h
                      × Progress o wd h0 7 h)
                    _ _
                    (Triple-perform (write_file _ _ _) (λ h a (t, p). (here, staged d t p))
                      (λ h e (t, p). (6, omega arith, failed p)))
                    (λ _.
                      Triple-perform (run_command _ _) (λ h a (w, p). wrote_iso d w p)
                        (λ h e (w, p). (7, omega arith, failed p)))))))

  pub uki_steps :
      Triple
        (Progress o wd h0 1)
        (Uki.build (sections o wd) (file_in wd o.arch.efi_name))
        (λ _. Progress o wd h0 2)
        Halted
  unfolding Uki.build
  uki_steps =
      Triple-bind (λ stub h. Occurs (read_file o.stub) stub h × Progress o wd h0 1 h) _ _
        (Triple-wrapping _ _ _
          (Triple-step 1 (read_file _) (omega arith) (λ h a p. (here, quiet tt p))))
        (λ stub.
          Triple-bind
            (λ linux h.
              Occurs (read_file o.kernel) linux h
              × Occurs (read_file o.stub) stub h
              × Progress o wd h0 1 h)
            _ _
            (Triple-wrapping _ _ _ (
              Triple-perform (read_file _) (λ h a (s, p). (here, there s, quiet tt p))
                (λ h e (s, p). (1, omega arith, failed p))))
            (λ linux.
              Triple-bind
                (λ initrd h.
                  Occurs (read_file (file_in wd (ascii "initramfs.cpio.gz"))) initrd h
                  × Occurs (read_file o.kernel) linux h
                  × Occurs (read_file o.stub) stub h
                  × Progress o wd h0 1 h)
                _ _
                (Triple-wrapping _ _ _ (
                  Triple-perform (read_file _)
                    (λ h a (l, s, p). (here, there l, there s, quiet tt p))
                    (λ h e (l, s, p). (1, omega arith, failed p))))
                (λ initrd.
                  Triple-bind
                    (λ image h.
                      (env.append_sections stub (sections_of (sections o wd) linux initrd)
                        ≡ ok image)
                      × Occurs (read_file (file_in wd (ascii "initramfs.cpio.gz"))) initrd h
                      × Occurs (read_file o.kernel) linux h
                      × Occurs (read_file o.stub) stub h
                      × Progress o wd h0 1 h)
                    _ _
                    (Triple-wrapping _ _ _ (
                      Triple-lift _ (λ h a q (i, l, s, p). (q, i, l, s, p))
                        (λ h (i, l, s, p). (1, omega arith, p))))
                    (λ image.
                      Triple-perform (write_file _ _ _)
                        (λ h a (q, i, l, s, p). linked stub linux initrd image s l i q p)
                        (λ h e (q, i, l, s, p). (1, omega arith, failed p))))))

  -- What is there before the init program is compiled.
  abbrev pub Ready : History → Type 0
  Ready h = IsWorkDir o wd h × Progress o wd h0 0 h

  pub Ready-quiet : (h : History) (e : Event) → IsQuiet e.call → Ready h → Ready (e ∷ h)
  Ready-quiet h e q (inl w, p) = (inl w, quiet q p)
  Ready-quiet h e q (inr (w, t), p) = (inr (w, there t), quiet q p)

  abbrev FoundInitDir : (found : Bool) (h : History) → Type 0
  FoundInitDir true h =
      (is_dir : Bool) × Occurs (stat (file_in (FilePath.clean (ascii "../init")) (ascii "go.mod")))
        is_dir h
  FoundInitDir false h = Unit

  locate_steps : Triple Ready locate_init_module (λ dir h. IsInitDir dir h × Ready h) Halted
  unfolding locate_init_module
  locate_steps =
      Triple-if (is_set (env.getenv (ascii "CLOUD_BOOT_INIT_DIR"))) _ _
        (λ s. Triple-pure _ (λ h r. (inl (s, refl), r)))
        (λ s.
          Triple-bind (λ found h. FoundInitDir found h × Ready h) _ _
            (Triple-succeeds _ (
              Triple-perform (stat _) (λ h d r. ((d, here), Ready-quiet h _ tt r))
                (λ h e r. (tt, Ready-quiet h _ tt r))))
            (λ found.
              Triple-if found _ _ (λ t. rw t (Triple-pure _ (λ h (d, r). (inr (s, refl, d), r))))
                (λ t. Triple-fail _ (λ h (d, (w, p)). (0, omega arith, p)))))

  pub init_steps :
      Triple Ready
        (build_init (file_in wd (ascii "cloud-boot-init")) o.arch.go_arch)
        (λ _. Progress o wd h0 1)
        Halted
  unfolding build_init
  init_steps =
      Triple-logged _ _ _ (λ h r p. Ready-quiet h _ tt p)
        (Triple-bind (λ dir h. IsInitDir dir h × Ready h) _ _ locate_steps
          (λ dir.
            Triple-perform (run_in _ _ _ _) (λ h a (i, (w, p)). compiled dir w i p)
              (λ h e (i, (w, p)). (0, omega arith, failed p))))
