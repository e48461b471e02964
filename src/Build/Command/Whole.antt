-- ===== src/Build/Command/Whole.antt =====
-- The whole of `cloud-boot build`, from its flags on.
use uki.Base.{
  ◌⊎◌, true, Text, List, [], ◌∷◌, ◌≡◌, refl, false, is_empty, some, inl, inr, Option-cases, arith,
  if◌then◌else◌,
}
use uki.Effects.{Event, Env, History, Exec, pure}
use uki.Effects.Hoare.{
  Triple-both, Triple, After, Triple-bind, Triple-weaken, Triple-if, Triple-pure, Triple-guard,
}
use uki.Effects.Only.{Only, Only-pure, Only-bind, Only-if}
use uki.Effects.Only.Growth.{Only-Grows, Triple-only}
use uki.Effects.Only.Calls.{only}
use uki.Build.Opts.{Opts, ArchProfile, find_profile, arch_profiles}
use uki.Build.Stub.{first_stub, default_stub, default_stub_roots}
use uki.Build.Stub.Choice.{Chosen, Chosen-later, default_stub-Chosen}
use uki.Build.Local.{IsLocal-build}
use uki.Effects.Grows.{Triple-frame}
use uki.Build.Command
use uki.Build.Command.{Flags, opts_of, run_for}
use uki.Build.Command.Checks.{IsAccepted}
use uki.Build.Progress.{IsQuiet, Progress, begun, quiet}
use uki.Build.Pipeline.{build}
use uki.Build.Progress.Whole.{Built, Unfinished, build_steps}

-- What the flags say, field by field, with the profile and the stub.
abbrev pub asked : Flags → ArchProfile → Text → Opts
asked f profile stub = record {
  arch = profile;
  kernel = f.kernel;
  stub = stub;
  cmdline = f.cmdline;
  extra = f.extra;
  image = f.image;
  plan_ref = f.plan_ref;
  plan_file = f.plan_file;
  target = f.target;
  uname = f.uname;
  out = f.out;
  cosign_key = f.cosign_key;
  zfs_userspace_cpio = f.zfs_userspace_cpio;
  work_dir = f.work_dir;
  keep = f.keep;
  insec = f.insec;
  verbose = f.verbose;
}

-- The stub is the one that was given, or else the first one that was found.
abbrev pub IsStub : Flags → ArchProfile → Text → History → Type 0
IsStub f profile stub h =
    (is_empty f.stub ≡ false) × (stub ≡ f.stub)
    ⊎ (is_empty f.stub ≡ true) × Chosen profile.stub_name default_stub_roots stub h

IsStub-later :
    (f : Flags) (profile : ArchProfile) (stub : Text) (h : History) (e : Event)
    → IsStub f profile stub h
    → IsStub f profile stub (e ∷ h)
IsStub-later f profile stub h e (inl g) = inl g
IsStub-later f profile stub h e (inr (n, c)) = inr (n, Chosen-later _ default_stub_roots stub h e c)

module _ ⦃env : Env⦄ where
  -- The flags were accepted, and `Build` did all its steps on them, with the stub that was given, or
  -- one that was found.
  pub record Ran (f : Flags) (h0 h : History) : Type 0 where
    pub profile : ArchProfile
    pub stub : Text
    pub accepted : IsAccepted f profile
    pub stub_set : is_empty stub ≡ false
    pub stub_found : IsStub f profile stub h
    pub built : Built (asked f profile stub) h0 h

  -- Not all steps were done.
  abbrev pub Stopped : Flags → History → History → Type 0
  Stopped f h0 h = (profile : ArchProfile) × (stub : Text) × Unfinished (asked f profile stub) h0 h

  -- No step was done yet.
  abbrev Start : History → History → Type 0
  Start h0 h = (o : Opts) (wd : Text) → Progress o wd h0 0 h

  module _ (f : Flags) (prof : ArchProfile) (h0 : History) where
    stopped : (h : History) → Start h0 h → Stopped f h0 h
    stopped h s = (prof, [], ([], 0, omega arith, s _ _))

    IsQuiet-first_stub : (name : Text) (roots : List Text) → Only IsQuiet (first_stub name roots)
    unfolding first_stub
    IsQuiet-first_stub name [] = Only-pure []
    IsQuiet-first_stub name (root ∷ roots) =
        Only-bind _ _ (search only)
          (λ found. Only-if found _ _ (Only-pure _) (IsQuiet-first_stub name roots))

    default_stub_steps : Triple (Start h0) (default_stub prof.stub_name) (λ _. Start h0) (Start h0)
    unfolding default_stub
    default_stub_steps =
        Triple-only IsQuiet (Start h0) _ (λ h e q s o wd. quiet q (s o wd)) (IsQuiet-first_stub _ _)

    stub_search-Chosen :
        Triple
          (Start h0)
          (default_stub prof.stub_name)
          (λ stub. Chosen prof.stub_name default_stub_roots stub)
          (λ _. ⊥)
    stub_search-Chosen = record { at = λ h s. default_stub-Chosen prof.stub_name h }

    stub_steps :
        Triple
          (Start h0)
          (if is_empty f.stub then default_stub prof.stub_name else pure f.stub)
          (λ stub h. IsStub f prof stub h × Start h0 h)
          (Stopped f h0)
    stub_steps =
        Triple-if (is_empty f.stub) _ _
          (λ e.
            Triple-weaken _ (Triple-both _ default_stub_steps stub_search-Chosen) (λ h s. s)
              (λ stub h (s, c). (inr (e, c), s)) (λ h (s, u). stopped h s))
          (λ n. Triple-pure _ (λ h s. (inl (n, refl), s)))

    build_with :
        IsAccepted f prof
        → (stub : Text) → is_empty stub ≡ false
        → Triple
            (λ h. IsStub f prof stub h × Start h0 h)
            (build (opts_of f prof stub))
            (λ _. Ran f h0)
            (Stopped f h0)
    unfolding opts_of
    build_with accepted stub stub_set =
        Triple-weaken _
          (Triple-frame (IsStub f prof stub) _ (record { later = IsStub-later f prof stub })
            (Only-Grows _ (IsLocal-build _)) (build_steps (opts_of f prof stub) h0))
          (λ h (g, s). (g, s _))
          (λ _ h (g, b). record {
            profile = prof;
            stub = stub;
            accepted = accepted;
            stub_set = stub_set;
            stub_found = g;
            built = b;
          })
          (λ h (g, u). (prof, stub, u))

    run_for_steps :
        find_profile f.arch arch_profiles ≡ some prof
        → Triple (Start h0) (run_for f prof) (λ _. Ran f h0) (Stopped f h0)
    unfolding run_for
    run_for_steps known = Triple-guard _ _ _ stopped (λ kernel_given.
        Triple-guard _ _ _ stopped (λ plan_given. Triple-guard _ _ _ stopped (λ one_source.
          Triple-bind (λ stub h. IsStub f prof stub h × Start h0 h) _ _ stub_steps
            (λ stub.
              Triple-guard _ _ _ (λ h (g, s). stopped h s)
                (build_with
                  (record {
                    known = known;
                    kernel_given = kernel_given;
                    plan_given = plan_given;
                    one_source = one_source;
                  })
                  stub)))))

abbrev no_profile : ArchProfile
no_profile = record { go_arch = []; efi_name = []; stub_name = [] }

-- If `cloud-boot build` returns no error, its flags were complete and consistent, and `Build` has
-- done its eight steps, each once and in order, on the options that have the value of each flag in
-- its own field, with the profile of the architecture and with the stub that was given, or, where
-- none was given, the one of the first root of `DefaultStubRoots` that has it; no other program
-- ran with success, and no other file was written whole. If it returns an error, not all of the
-- steps were done, whatever the error is.
pub command_run-Ran :
    ⦃env : Env⦄ (f : Flags) (h : History) → After (λ _. Ran f h) (Stopped f h) (Command.run f h)
unfolding Command.run uki.Effects.fail
command_run-Ran f h = elim (Option-cases (find_profile f.arch arch_profiles)) [
  | inl unknown ↦ rw (unknown, Command.run) (stopped f no_profile h h (λ o wd. begun))
  | inr (prof, known) ↦
      rw (known, Command.run) ((run_for_steps f prof h known).at h (λ o wd. begun))
]
