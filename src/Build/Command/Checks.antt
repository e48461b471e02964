-- ===== src/Build/Command/Checks.antt =====
-- Which flags `cloud-boot build` takes.
use uki.Base.{
  ℕ, List, ◌+◌, ◌≤◌, length, Text, [], Bool, true, false, is_empty, is_set, some, none, ◌≡◌, refl,
  ◌⊎◌, inl, inr, ◌∙◌, ◌∷◌, ◌&&◌, if◌then◌else◌, Bool-cases, Option-cases,
}
use uki.Effects.{
  look_path, Result, Env, Error, History, err, Exec, errorf, pure, fail, fail_if, ◌>>=◌, ◌>>◌,
}
use uki.Build.Opts.{ArchProfile, arch_profiles, find_profile}
use uki.Build.Pipeline.{build}
use uki.Build.Command.{Flags, opts_of, run_for, run}
use uki.Build.Opts.{Opts}
use uki.Build.Pipeline.{require_tools}
use uki.Build.Stub.{default_stub}
use uki.Build.Stub.Search.{Asks-default_stub}
use uki.Build.Local.{IsLocal-build, IsLocal-require_tools, IsLocal-work_dir, IsLocal-assemble}
use uki.Effects.Grows.{Grows-bind, Grows-fail_if}
use uki.Effects.Asks.{Asks, Asks-bind, Asks-replacing, Asks-perform}
use uki.Effects.Only.Growth.{Only-Grows}
use uki.Effects.Only.Calls.{only}
use uki.Effects.Local.{IsLocalCall}

-- The flags are complete and consistent, for a known architecture.
pub record IsAccepted (f : Flags) (prof : ArchProfile) : Type 0 where
  pub known : find_profile f.arch arch_profiles ≡ some prof
  pub kernel_given : is_empty f.kernel ≡ false
  pub plan_given : (is_empty f.plan_file && is_empty f.plan_ref && is_empty f.image) ≡ false
  pub one_source : (is_set f.plan_ref && is_set f.image) ≡ false

differ : {b : Bool} → b ≡ true → b ≡ false → ⊥
differ t f = let e : true ≡ false = cc (t, f) in cc

length-at : {n : ℕ} {x y : Result (Unit {0}) × History} → x ≡ y → n ≤ length y.1 → n ≤ length x.1
length-at e l = rw e l

module _ ⦃env : Env⦄ where
  guarded :
      {A : Type 0} (b : Bool) (e : Error) (m : Exec A) (h : History)
      → (b ≡ true → (fail_if b e >> m) h ≡ (err e, h)) × (b ≡ false → (fail_if b e >> m) h ≡ m h)
  unfolding fail_if ◌>>=◌
  guarded true e m h = (λ _. refl, λ q. cc)
  guarded false e m h = (λ q. cc, λ _. refl)

  stub_given :
      (stub : Text) (d : Exec Text) (e : Text → Error) (m : Text → Exec (Unit {0})) (h : History)
      → is_empty stub ≡ false
      → ((if is_empty stub then d else pure stub) >>= λ s. fail_if (is_empty s) (e s) >> m s) h
        ≡ m stub h
  unfolding ◌>>=◌ fail_if
  stub_given [] d e m h q = cc
  stub_given (c ∷ stub) d e m h q = refl

  Asks-require_tools : (t : Text) (tools : List Text) → Asks (require_tools (t ∷ tools))
  unfolding require_tools
  Asks-require_tools t tools =
      Asks-bind _ _
        (Asks-replacing (errorf "required tool %q not in PATH" (t ∷ [])) _
          (Asks-perform (look_path t)))
        (λ _. Only-Grows {P = IsLocalCall} _ (IsLocal-require_tools tools))

  Asks-build : (o : Opts) → Asks (build o)
  unfolding build
  Asks-build o = Asks-bind _ _ (Asks-require_tools _ _) (λ _.
      Only-Grows {P = IsLocalCall} _ (search (only, IsLocal-work_dir, IsLocal-assemble) depth 12))

  abbrev no_stub : Flags → ArchProfile → Error
  no_stub f prof =
      errorf "UEFI stub not found for %s; pass --stub <%s>" (f.arch ∷ prof.stub_name ∷ [])

  -- Behind the guards, a stub is looked for or the build begins.
  begun :
      (f : Flags) (prof : ArchProfile) (h : History)
      → length h + 1
        ≤ length
            (((if is_empty f.stub then default_stub prof.stub_name else pure f.stub) >>= λ s.
                fail_if (is_empty s) (no_stub f prof) >> build (opts_of f prof s))
              h).1
  begun f prof h = elim (Bool-cases (is_empty f.stub)) [
    | inl e ↦ rw e (
        (Asks-bind _ _ (Asks-default_stub prof.stub_name) (λ s.
            Grows-bind _ _ (Grows-fail_if _ _)
              (λ _. Only-Grows {P = IsLocalCall} _ (IsLocal-build _)))).at
          h)
    | inr n ↦
        rw
          (stub_given f.stub (default_stub prof.stub_name) (λ _. no_stub f prof)
            (λ s. build (opts_of f prof s)) h n)
          ((Asks-build (opts_of f prof f.stub)).at h)
  ]

  run_for_checked :
      (f : Flags) (prof : ArchProfile) (h : History)
      → find_profile f.arch arch_profiles ≡ some prof
      → ((e : Error) × (run_for f prof h ≡ (err e, h)) × ¬ ((p : ArchProfile) × IsAccepted f p))
        ⊎ (IsAccepted f prof × (length h + 1 ≤ length (run_for f prof h).1))
  unfolding run_for
  run_for_checked f prof h known = elim (Bool-cases (is_empty f.kernel)) [
    | inl a ↦ inl (_, (guarded _ _ _ h).0 a, λ (p, i). differ a i.kernel_given)
    | inr a ↦ elim (Bool-cases (is_empty f.plan_file && is_empty f.plan_ref && is_empty f.image)) [
      | inl b ↦
          inl (_, (guarded _ _ _ h).1 a ∙ (guarded _ _ _ h).0 b, λ (p, i). differ b i.plan_given)
      | inr b ↦ elim (Bool-cases (is_set f.plan_ref && is_set f.image)) [
        | inl c ↦ inl (
          _,
          (guarded _ _ _ h).1 a ∙ ((guarded _ _ _ h).1 b ∙ (guarded _ _ _ h).0 c),
          λ (p, i). differ c i.one_source,
        )
        | inr c ↦ inr (
          record { known = known; kernel_given = a; plan_given = b; one_source = c },
          length-at ((guarded _ _ _ h).1 a ∙ ((guarded _ _ _ h).1 b ∙ (guarded _ _ _ h).1 c))
              (begun f prof h),
        )
      ]
    ]
  ]

  run_known :
      (f : Flags) (prof : ArchProfile) (h : History)
      → find_profile f.arch arch_profiles ≡ some prof
      → run f h ≡ run_for f prof h
  unfolding run
  run_known f prof h known = rw (known, run)

  run_unknown :
      (f : Flags) (h : History)
      → find_profile f.arch arch_profiles ≡ none
      → (e : Error) × (run f h ≡ (err e, h))
  unfolding run fail
  run_unknown f h unknown = (
    errorf "unsupported --arch %q (allowed: amd64, arm64, riscv64, loongarch64)" (f.arch ∷ []),
    rw (unknown, run),
  )

  unknown-refuses :
      (f : Flags)
      → find_profile f.arch arch_profiles ≡ none
      → ¬ ((p : ArchProfile) × IsAccepted f p)
  unknown-refuses f unknown (p, i) =
      let known = i.known in let e : none ≡ some p = cc (unknown, known) in cc

-- `cloud-boot build` refuses its flags, with an error and without any call, exactly if they are
-- not complete and consistent, that is: a known architecture, a kernel, a plan file, plan or image,
-- and not both a plan and an image. If they are, it makes at least one call.
pub command_checked :
    ⦃env : Env⦄ (f : Flags) (h : History)
    → ((e : Error) × (run f h ≡ (err e, h)) × ¬ ((prof : ArchProfile) × IsAccepted f prof))
      ⊎ ((prof : ArchProfile) × IsAccepted f prof × (length h + 1 ≤ length (run f h).1))
command_checked f h = elim (Option-cases (find_profile f.arch arch_profiles)) [
  | inl unknown ↦ let (e, q) = run_unknown f h unknown in inl (e, q, unknown-refuses f unknown)
  | inr (prof, known) ↦ elim (run_for_checked f prof h known) [
    | inl (e, q, n) ↦ inl (e, run_known f prof h known ∙ q, n)
    | inr (valid, l) ↦ inr (prof, valid, rw (run_known f prof h known) l)
  ]
]
