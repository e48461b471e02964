-- ===== src/Build/Cleanup.antt =====
-- The files and the temporary directories that `Build` leaves behind.
use uki.Base.{
  Text, Bool, true, false, is_empty, ◌≡◌, refl, ◌∙◌, [], ◌∷◌, List, ◌&&◌, not, if◌then◌else◌, arith,
  ascii, ◌⊎◌, inl, inr,
}
use uki.Effects.{
  log, text, ◌>>◌, Exec, Env, History, Result, ok, err, perform, mkdir_temp, remove_all, deferring,
  ignoring, ◌>>=◌,
}
use uki.Effects.Hoare.{Triple, After, Triple-bind, Triple-logged, Triple-perform, Triple-weaken}
use uki.Effects.Resources.{
  IsBalanced, IsBalanced-bind, IsBalanced-with_temp_logged, held, Resource, temp,
}
use uki.Effects.Resources.Quiet.{balanced, IsBalanced-log}
use uki.Build.Opts.{Opts}
use uki.Build.Pipeline.{work_dir, assemble, build}
use uki.Build.Balance.{IsBalanced-assemble, IsBalanced-require_tools}

module _ ⦃env : Env⦄ where
  -- `Build` from the work directory on, with the test on the flags as an argument.
  abbrev in_work_dir : (arch : Text) → Bool → Text → (Text → Exec (Unit {0})) → Exec (Unit {0})
  in_work_dir arch temporary dir m = do
    wd ← work_dir dir
    log "workdir: %s (arch=%s)" (text wd ∷ text arch ∷ [])
    if temporary then deferring (ignoring (perform (remove_all wd))) (m wd) else m wd

  IsBalanced-work_dir_given : (dir : Text) → is_empty dir ≡ false → IsBalanced (work_dir dir)
  unfolding work_dir
  IsBalanced-work_dir_given dir e = rw e (search balanced depth 9)

  IsBalanced-in_work_dir :
      (arch : Text) (temporary : Bool) (dir : Text) (m : Text → Exec (Unit {0}))
      → temporary ≡ is_empty dir
      → ((wd : Text) → IsBalanced (m wd))
      → IsBalanced (in_work_dir arch temporary dir m)
  unfolding work_dir
  IsBalanced-in_work_dir arch true [] m e b = IsBalanced-with_temp_logged _ _ _ m b
  IsBalanced-in_work_dir arch false [] m e b = cc
  IsBalanced-in_work_dir arch true (c ∷ dir) m e b = cc
  IsBalanced-in_work_dir arch false (c ∷ dir) m e b =
      IsBalanced-bind _ _ (IsBalanced-work_dir_given (c ∷ dir) refl)
        (λ wd. IsBalanced-bind _ _ (IsBalanced-log _ _) (λ _. b wd))

  pub clean :
      (o : Opts) → (not o.keep && is_empty o.work_dir) ≡ is_empty o.work_dir → IsBalanced (build o)
  unfolding build
  clean o e = IsBalanced-bind _ _ (IsBalanced-require_tools _) (λ _.
      IsBalanced-in_work_dir o.arch.go_arch _ o.work_dir (assemble o) e (IsBalanced-assemble o))

  pub from_balanced :
      {A : Type 0} (l : List Resource) (m : Exec A)
      → IsBalanced m
      → Triple (λ h. held h ≡ l) m (λ _ h. held h ≡ l) (λ h. held h ≡ l)
  from_balanced {A} l m b = record { at = λ h e. go (m h) (b.at h ∙ e) }
    where
      go : (o : Result A × History) → held o.1 ≡ l → After (λ _ h. held h ≡ l) (λ h. held h ≡ l) o
      go (ok a, h) e = e
      go (err x, h) e = e

  -- Where a build has stopped that keeps its directory: before it was made, or after.
  abbrev pub Stopped : List Resource → History → Type 0
  Stopped l h = (held h ≡ l) ⊎ ((d : Text) × (held h ≡ temp d ∷ l))

  in_work_dir_kept :
      (arch : Text) (temporary : Bool) (dir : Text) (m : Text → Exec (Unit {0})) (l : List Resource)
      → temporary ≡ false
      → is_empty dir ≡ true
      → ((wd : Text) → IsBalanced (m wd))
      → Triple
          (λ h. held h ≡ l)
          (in_work_dir arch temporary dir m)
          (λ _ h. (d : Text) × (held h ≡ temp d ∷ l))
          (Stopped l)
  unfolding work_dir
  in_work_dir_kept arch true dir m l t e b = cc
  in_work_dir_kept arch false (c ∷ dir) m l t e b = cc
  in_work_dir_kept arch false [] m l t e b =
      Triple-bind (λ d h. held h ≡ temp d ∷ l) _ _
        (Triple-perform (mkdir_temp (ascii "cloud-boot-build-")) (λ h d q. rw q) (λ h x q. inl q))
        (λ d.
          Triple-logged _ _ _ (λ h r q. q)
            (Triple-weaken _ (from_balanced (temp d ∷ l) _ (b d)) (λ h q. q) (λ _ h q. (d, q))
              (λ h q. inr (d, q))))

  pub kept :
      (o : Opts) (l : List Resource)
      → (not o.keep && is_empty o.work_dir) ≡ false
      → is_empty o.work_dir ≡ true
      → Triple (λ h. held h ≡ l) (build o) (λ _ h. (d : Text) × (held h ≡ temp d ∷ l)) (Stopped l)
  unfolding build
  kept o l c e =
      Triple-bind (λ _ h. held h ≡ l) _ _
        (Triple-weaken _ (from_balanced l _ (IsBalanced-require_tools _)) (λ h q. q) (λ _ h q. q)
          (λ h q. inl q))
        (λ _.
          in_work_dir_kept o.arch.go_arch _ o.work_dir (assemble o) l c e (IsBalanced-assemble o))

-- Without `--keep`, or with a work directory of the caller, `Build` ends on every path, also
-- where a step fails, with all files closed that it opened and all temporary directories removed
-- that it made.
pub build_clean :
    ⦃env : Env⦄ (o : Opts) (h : History)
    → (o.keep && is_empty o.work_dir) ≡ false
    → held (build o h).1 ≡ held h
build_clean o h c = (clean o (ground arith)).at h

-- With `--keep` and no work directory given, a `Build` that succeeds leaves its temporary
-- directory in place, and nothing else; one that fails leaves this directory or nothing.
pub build_kept :
    ⦃env : Env⦄ (o : Opts) (h : History)
    → o.keep ≡ true
    → is_empty o.work_dir ≡ true
    → After
        (λ _ h'. (d : Text) × (held h' ≡ temp d ∷ held h))
        (λ h'. (held h' ≡ held h) ⊎ ((d : Text) × (held h' ≡ temp d ∷ held h)))
        (build o h)
build_kept o h k e = (kept o (held h) (ground arith) e).at h refl
