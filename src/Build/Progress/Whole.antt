-- ===== src/Build/Progress/Whole.antt =====
-- The whole of `Build` as steps of the relation.
use uki.Base.{ℕ, Text, is_empty, String, List, [], ◌∷◌, refl, ◌<◌, ◌&&◌, not, inl, inr, arith}
use uki.Effects.{Env, History, Handle, mkdir_temp, mkdir_all, perform, remove_all, ignoring}
use uki.Effects.Hoare.{
  Triple, After, Triple-bind, Triple-logged, Triple-log, Triple-weaken, Triple-if, Triple-pure,
  Triple-perform, Triple-deferring,
}
use uki.Effects.Log.{here}
use uki.Effects.Only.{Only, Only-pure, Only-bind}
use uki.Effects.Only.Growth.{Triple-only}
use uki.Effects.Only.Calls.{only}
use uki.Build.Opts.{Opts}
use uki.Build.Initramfs.{
  write_dirs, write_key, write_plan, write_entries, write_compressed, build_initramfs,
}
use uki.Build.Images.{append_bytes}
use uki.Build.Pipeline.{require_tools, read_optional, append_userspace, assemble, work_dir, build}
use uki.Build.Progress.{IsQuiet, Progress, begun, quiet}
use uki.Build.Progress.Steps.{
  Triple-idle, Halted, Ready, Ready-quiet, init_steps, uki_steps, esp_steps, iso_steps,
}

module _ ⦃env : Env⦄ where
  IsQuiet-write_dirs : (w : Handle) (ds : List Text) → Only IsQuiet (write_dirs w ds)
  unfolding write_dirs
  IsQuiet-write_dirs w [] = Only-pure tt
  IsQuiet-write_dirs w (d ∷ ds) = Only-bind _ _ (search only) (λ _. IsQuiet-write_dirs w ds)

  IsQuiet-write_entries :
      (w : Handle) (init pem hcl : Text) → Only IsQuiet (write_entries w init pem hcl)
  unfolding write_entries write_key write_plan
  IsQuiet-write_entries w init pem hcl = search (only, IsQuiet-write_dirs) depth 16

  IsQuiet-build_initramfs :
      (bin out pem hcl : Text) → Only IsQuiet (build_initramfs bin out pem hcl)
  unfolding build_initramfs write_compressed
  IsQuiet-build_initramfs bin out pem hcl = search (only, IsQuiet-write_entries) depth 16

  IsQuiet-read_optional :
      (failure message : String) (p : Text) → Only IsQuiet (read_optional failure message p)
  unfolding read_optional
  IsQuiet-read_optional failure message p = search only depth 12

  IsQuiet-append_userspace : (a b : Text) → Only IsQuiet (append_userspace a b)
  unfolding append_userspace append_bytes
  IsQuiet-append_userspace a b = search only depth 16

  IsQuiet-require_tools : (tools : List Text) → Only IsQuiet (require_tools tools)
  unfolding require_tools
  IsQuiet-require_tools [] = Only-pure tt
  IsQuiet-require_tools (t ∷ tools) = Only-bind _ _ (search only) (λ _. IsQuiet-require_tools tools)

  assemble_steps :
      (o : Opts) (wd : Text) (h0 : History)
      → Triple (Ready o wd h0) (assemble o wd) (λ _. Progress o wd h0 8) (Halted o wd h0)
  unfolding assemble
  assemble_steps o wd h0 =
      Triple-bind (λ _. Progress o wd h0 1) _ _ (init_steps o wd h0)
        (λ _.
          Triple-bind (λ _. Progress o wd h0 1) _ _
            (Triple-idle o wd h0 1 _ (omega arith) (IsQuiet-read_optional _ _ _))
            (λ pem.
              Triple-bind (λ _. Progress o wd h0 1) _ _
                (Triple-idle o wd h0 1 _ (omega arith) (IsQuiet-read_optional _ _ _))
                (λ hcl.
                  Triple-bind (λ _. Progress o wd h0 1) _ _
                    (Triple-idle o wd h0 1 _ (omega arith) (IsQuiet-build_initramfs _ _ pem hcl))
                    (λ _.
                      Triple-bind (λ _. Progress o wd h0 1) _ _
                        (Triple-idle o wd h0 1 _ (omega arith) (IsQuiet-append_userspace _ _))
                        (λ _.
                          Triple-logged _ _ _ (λ h r p. quiet tt p)
                            (Triple-bind (λ _. Progress o wd h0 2) _ _ (uki_steps o wd h0)
                              (λ _.
                                Triple-bind (λ _. Progress o wd h0 6) _ _ (esp_steps o wd h0)
                                  (λ _.
                                    Triple-bind (λ _. Progress o wd h0 8) _ _ (iso_steps o wd h0)
                                      (λ _. Triple-log _ _ (λ h r p. quiet tt p))))))))))

  -- All steps were done, in one work directory.
  abbrev pub Built : Opts → History → History → Type 0
  Built o h0 h = (wd : Text) × Progress o wd h0 8 h

  -- Not all steps were done.
  abbrev pub Unfinished : Opts → History → History → Type 0
  Unfinished o h0 h = (wd : Text) × (n : ℕ) × (n < 8) × Progress o wd h0 n h

  -- A work directory is there or made, before the first step.
  work_dir_steps :
      (o : Opts) (h0 : History)
      → Triple
          (λ h. (wd : Text) → Progress o wd h0 0 h)
          (work_dir o.work_dir)
          (λ wd. Ready o wd h0)
          (Unfinished o h0)
  unfolding work_dir
  work_dir_steps o h0 =
      Triple-if (is_empty o.work_dir) _ _
        (λ empty.
          Triple-perform (mkdir_temp _) (λ h d p. (inr (empty, here), quiet tt (p d)))
            (λ h e p. ([], 0, omega arith, quiet tt (p []))))
        (λ set.
          Triple-bind (λ _ h. (wd : Text) → Progress o wd h0 0 h) _ _
            (Triple-perform (mkdir_all _ _) (λ h a p wd. quiet tt (p wd))
              (λ h e p. ([], 0, omega arith, quiet tt (p []))))
            (λ _. Triple-pure _ (λ h p. (inl (set, refl), p o.work_dir))))

  tools_steps :
      (o : Opts) (h0 : History) (tools : List Text)
      → Triple
          (λ h. (wd : Text) → Progress o wd h0 0 h)
          (require_tools tools)
          (λ _ h. (wd : Text) → Progress o wd h0 0 h)
          (Unfinished o h0)
  tools_steps o h0 tools =
      Triple-weaken _
        (Triple-only IsQuiet _ _ (λ h e q p wd. quiet q (p wd)) (IsQuiet-require_tools tools))
        (λ h p. p) (λ _ h p. p) (λ h p. ([], 0, omega arith, p []))

  assemble_any :
      (o : Opts) (h0 : History) (wd : Text)
      → Triple (Ready o wd h0) (assemble o wd) (λ _. Built o h0) (Unfinished o h0)
  assemble_any o h0 wd =
      Triple-weaken _ (assemble_steps o wd h0) (λ h r. r) (λ _ h p. (wd, p))
        (λ h (n, l, p). (wd, n, l, p))

  removed :
      (o : Opts) (h0 : History) (wd : Text)
      → Triple (Built o h0) (ignoring (perform (remove_all wd))) (λ _. Built o h0) (Built o h0)
  removed o h0 wd = Triple-only IsQuiet _ _ (λ h e q (d, p). (d, quiet q p)) (search only)

  removed-Unfinished :
      (o : Opts) (h0 : History) (wd : Text)
      → Triple
          (Unfinished o h0)
          (ignoring (perform (remove_all wd)))
          (λ _. Unfinished o h0)
          (Unfinished o h0)
  removed-Unfinished o h0 wd =
      Triple-only IsQuiet _ _ (λ h e q (d, n, l, p). (d, n, l, quiet q p)) (search only)

  pub build_steps :
      (o : Opts) (h0 : History)
      → Triple
          (λ h. (wd : Text) → Progress o wd h0 0 h)
          (build o)
          (λ _. Built o h0)
          (Unfinished o h0)
  unfolding build
  build_steps o h0 =
      Triple-bind (λ _ h. (wd : Text) → Progress o wd h0 0 h) _ _ (tools_steps o h0 _)
        (λ _.
          Triple-bind (λ wd. Ready o wd h0) _ _ (work_dir_steps o h0)
            (λ wd.
              Triple-logged _ _ _ (λ h r p. Ready-quiet o wd h0 h _ tt p)
                (Triple-if (not o.keep && is_empty o.work_dir) _ _
                  (λ _.
                    Triple-deferring _ _ (λ _. removed o h0 wd) (removed-Unfinished o h0 wd)
                      (assemble_any o h0 wd))
                  (λ _. assemble_any o h0 wd))))

-- If `Build` returns no error, it has done eight steps, each once and in this order, in the given
-- work directory or in a new one: `go build` of the init program for the architecture, in the
-- directory of the environment or the default one; the UKI, made by the appender from what was read
-- of the stub, of the kernel and of the initramfs, with the command line of the options; mformat,
-- mmd twice, and mcopy of the UKI to its place in the ESP image; README.txt in a new directory; and
-- xorriso with the ESP image, this directory and the output path. No other program ran with success
-- and no other file was written whole. If `Build` returns an error, it has done only the first
-- steps, and xorriso did not succeed.
pub build-Progress :
    ⦃env : Env⦄ (o : Opts) (h : History) → After (λ _. Built o h) (Unfinished o h) (build o h)
build-Progress o h = (build_steps o h).at h (λ wd. begun)
