-- ===== src/Build/Command/Cleanup.antt =====
-- The files and the temporary directories that `cloud-boot build` leaves behind.
use uki.Base.{Text, List, [], ◌∷◌, ◌≡◌, Bool-cases, Option-cases, inl, inr, is_empty, ◌&&◌, arith}
use uki.Effects.{Env, Exec, ◌>>=◌}
use uki.Effects.Hoare.{Triple, Triple-bind, Triple-fail, Triple-weaken}
use uki.Effects.Resources.{
  Resource, held, IsBalanced, IsBalanced-pure, IsBalanced-bind, IsBalanced-if, IsBalanced-fail_if,
}
use uki.Effects.Resources.Quiet.{balanced}
use uki.Build.Opts.{Opts, ArchProfile, find_profile, arch_profiles}
use uki.Build.Stub.{first_stub, default_stub}
use uki.Build.Pipeline.{build}
use uki.Build.Cleanup.{Stopped, clean, kept, from_balanced}
use uki.Build.Command
use uki.Build.Command.{Flags, run_for}

module _ ⦃env : Env⦄ where
  IsBalanced-first_stub :
      (stub_name : Text) (roots : List Text) → IsBalanced (first_stub stub_name roots)
  unfolding first_stub
  IsBalanced-first_stub stub_name [] = IsBalanced-pure []
  IsBalanced-first_stub stub_name (root ∷ roots) =
      IsBalanced-bind _ _ (search balanced) (λ found.
        IsBalanced-if found _ _ (IsBalanced-pure _) (IsBalanced-first_stub stub_name roots))

  -- From a history that holds `l`, at most a temporary directory is held behind the action.
  abbrev pub Ends : List Resource → Exec (Unit {0}) → Type 0
  Ends l m = Triple (λ h. held h ≡ l) m (λ _. Stopped l) (Stopped l)

  build-Ends : (o : Opts) (l : List Resource) → Ends l (build o)
  build-Ends o l = elim (Bool-cases (o.keep && is_empty o.work_dir)) [
    | inl k ↦
        Triple-weaken _ (kept o l (ground arith) (ground arith)) (λ h q. q) (λ _ h q. inr q)
          (λ h q. q)
    | inr k ↦
        Triple-weaken _ (from_balanced l _ (clean o (ground arith))) (λ h q. q) (λ _ h q. inl q)
          (λ h q. inl q)
  ]

  after_balanced :
      {A : Type 0} (l : List Resource) (m : Exec A) (f : A → Exec (Unit {0}))
      → IsBalanced m
      → ((a : A) → Ends l (f a))
      → Ends l (m >>= f)
  after_balanced l m f b t =
      Triple-bind (λ _ h. held h ≡ l) m f
        (Triple-weaken _ (from_balanced l m b) (λ h q. q) (λ _ h q. q) (λ h q. inl q)) t

  run_for-Ends : (f : Flags) (prof : ArchProfile) (l : List Resource) → Ends l (run_for f prof)
  unfolding run_for default_stub
  run_for-Ends f prof l = after_balanced l _ _ (IsBalanced-fail_if _ _) (λ _.
      after_balanced l _ _ (IsBalanced-fail_if _ _) (λ _.
        after_balanced l _ _ (IsBalanced-fail_if _ _) (λ _.
          after_balanced l _ _ (IsBalanced-if _ _ _ (IsBalanced-first_stub _ _) (IsBalanced-pure _))
            (λ stub. after_balanced l _ _ (IsBalanced-fail_if _ _) (λ _. build-Ends _ l)))))

  pub run-Ends : (f : Flags) (l : List Resource) → Ends l (Command.run f)
  unfolding Command.run
  run-Ends f l = elim (Option-cases (find_profile f.arch arch_profiles)) [
    | inl unknown ↦ rw (unknown, Command.run) (Triple-fail _ (λ h q. inl q))
    | inr (prof, known) ↦ rw (known, Command.run) (run_for-Ends f prof l)
  ]
