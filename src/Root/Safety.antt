-- ===== src/Root/Safety.antt =====
-- What every run of `cloud-boot` keeps.
use uki.Base.{Text, List, ◌∷◌, ◌≡◌, refl, ◌⊎◌, inl, All}
use uki.Effects.{Env, Exec, History, Result, ok, err}
use uki.Effects.Hoare.{After}
use uki.Effects.Local.{IsLocal, Adds-IsClosed}
use uki.Effects.Resources.{held, temp, IsBalanced}
use uki.Cobra.Execute.{Cobra}
use uki.Cobra.Everywhere.{Everywhere, Everywhere-execute, Runs}
use uki.Push.Closed.{IsClosed, manifests, indexes}
use uki.Push.Artifact
use uki.Push.Plan
use uki.Push.Index
use uki.Push.Multi
use uki.Push.Multi.PathList.Laws.{IsEntry}
use uki.Build.Command as BuildCommand
use uki.Push.Artifact.Balance as ArtifactBalance
use uki.Push.Artifact.Delivery as Artifacts
use uki.Push.Index.Balance as IndexBalance
use uki.Push.Index.Delivery as Indexes
use uki.Push.Plan.Balance as PlanBalance
use uki.Push.Plan.Delivery as Plans
use uki.Push.Multi.Balance as MultiBalance
use uki.Push.Multi.Delivery as Multis
use uki.Push.Multi.Options.{options-IsEntry}
use uki.Push.Modpack.Balance as ModpackBalance
use uki.Push.Modpack.Local as ModpackLocal
use uki.Push.Cmd as PushCmd
use uki.Label.Balance as LabelBalance
use uki.Label.Local as LabelLocal
use uki.Build.Local as BuildLocal
use uki.Build.Command.Cleanup.{run-Ends}
use uki.Build.Cleanup.{Stopped}
use uki.Root.{new_root_cmd, main}

-- What both cases of an outcome give.
After-both :
    {A : Type 0} (Q : A → History → Type 0) (E F : History → Type 0) (o : Result A × History)
    → ((a : A) (h : History) → Q a h → F h)
    → ((h : History) → E h → F h)
    → After Q E o
    → F o.1
After-both Q E F (ok a, h) q e x = q a h x
After-both Q E F (err _, h) q e x = e h x

module _ ⦃env : Env⦄ (h : History) (c : IsClosed h) where
  artifact-IsClosed : (o : Artifact.Opts) → IsClosed (Artifact.run o h).1
  artifact-IsClosed o =
      After-both (λ _. Artifacts.Pushed (manifests h) (indexes h) o) _ IsClosed (Artifact.run o h)
        (λ _ _ x. x.delivered.accepted.closed) (λ _ x. x.closed)
        (Artifacts.artifact_run-Pushed o h c)

  plan-IsClosed : (o : Plan.Opts) → IsClosed (Plan.run o h).1
  plan-IsClosed o =
      After-both (λ _. Plans.Pushed (manifests h) (indexes h) o) _ IsClosed (Plan.run o h)
        (λ _ _ x. x.accepted.closed) (λ _ x. x.closed) (Plans.plan_run-Pushed o h c)

  index-IsClosed : (o : Index.Opts) → IsClosed (Index.run o h).1
  index-IsClosed o =
      After-both (λ _. Indexes.Pushed (manifests h) (indexes h) o) _ IsClosed (Index.run o h)
        (λ _ _ x. x.accepted.closed) (λ _ x. x.closed) (Indexes.index_run-Pushed o h c)

  multi-IsClosed :
      (o : Multi.Opts) → All (All IsEntry) (Multis.flags o) → IsClosed (Multi.run o h).1
  multi-IsClosed o v =
      After-both
        (λ _. Multis.Pushed (manifests h) (indexes h) o (Multi.unique_platforms (Multis.flags o))) _
        IsClosed (Multi.run o h) (λ _ _ x. x.indexed.accepted.closed) (λ _ x. x.closed)
        (Multis.multi_run-Pushed o h v c)

  local-IsClosed : (m : Exec (Unit {0})) → IsLocal m → IsClosed (m h).1
  local-IsClosed m l = Adds-IsClosed c (l.at h)

  EndsClosed : Result (Unit {0}) × History → Type 0
  EndsClosed o = IsClosed o.1

  closed-Everywhere : Everywhere (Runs h EndsClosed) new_root_cmd
  unfolding new_root_cmd PushCmd.cmd EndsClosed
  closed-Everywhere = (
    record { run = λ l f args p. local-IsClosed _ (BuildLocal.IsLocal-run f) },
    (
      record {
        run = λ l part (path, label) p. local-IsClosed _ (LabelLocal.IsLocal-run part path _);
      },
      (
        (
          record { run = λ l o ref p. artifact-IsClosed _ },
          (
            record {
              run = λ l o ref p. multi-IsClosed (record o { ref = ref }) (options-IsEntry p);
            },
            (
              record { run = λ l o ref p. plan-IsClosed _ },
              (
                record { run = λ l o ref p. index-IsClosed _ },
                (record { run = λ l o args p. local-IsClosed _ (ModpackLocal.IsLocal-run o) }, tt),
              ),
            ),
          ),
        ),
        tt,
      ),
    ),
  )

-- Whatever the command line is, and whatever the world answers: if every manifest and every index of
-- the history refers only to what was uploaded or described ahead of it, the same holds behind a
-- run of `cloud-boot`.
pub main-IsClosed :
    ⦃env : Env⦄ (cobra : Cobra new_root_cmd) (argv : List Text) (h : History)
    → IsClosed h
    → IsClosed (main cobra argv h).1
unfolding main EndsClosed
main-IsClosed cobra argv h c =
    Everywhere-execute cobra argv h (EndsClosed h c) (λ r. c) (closed-Everywhere h c)

module _ ⦃env : Env⦄ (h : History) where
  -- At most one temporary directory more is held than in `h`.
  EndsStopped : Result (Unit {0}) × History → Type 0
  EndsStopped o = Stopped (held h) o.1

  balanced-Stopped : (m : Exec (Unit {0})) → IsBalanced m → Stopped (held h) (m h).1
  balanced-Stopped m b = inl (b.at h)

  build-Stopped : (f : BuildCommand.Flags) → Stopped (held h) (BuildCommand.run f h).1
  build-Stopped f =
      After-both (λ _. Stopped (held h)) (Stopped (held h)) (Stopped (held h))
        (BuildCommand.run f h) (λ _ _ x. x) (λ _ x. x) ((run-Ends f (held h)).at h refl)

  stopped-Everywhere : Everywhere (Runs h EndsStopped) new_root_cmd
  unfolding new_root_cmd PushCmd.cmd EndsStopped
  stopped-Everywhere = (
    record { run = λ l f args p. build-Stopped f },
    (
      record {
        run =
            λ l part (path, label) p. balanced-Stopped _ (LabelBalance.IsBalanced-run part path _);
      },
      (
        (
          record { run = λ l o ref p. balanced-Stopped _ (ArtifactBalance.IsBalanced-run _) },
          (
            record { run = λ l o ref p. balanced-Stopped _ (MultiBalance.IsBalanced-run _) },
            (
              record { run = λ l o ref p. balanced-Stopped _ (PlanBalance.IsBalanced-run _) },
              (
                record { run = λ l o ref p. balanced-Stopped _ (IndexBalance.IsBalanced-run _) },
                (
                  record {
                    run = λ l o args p. balanced-Stopped _ (ModpackBalance.IsBalanced-run o);
                  },
                  tt,
                ),
              ),
            ),
          ),
        ),
        tt,
      ),
    ),
  )

-- Whatever the command line is, and whatever the world answers: a run of `cloud-boot` ends with the
-- files and temporary directories that were held before, or with one temporary directory more.
pub main_stopped :
    ⦃env : Env⦄ (cobra : Cobra new_root_cmd) (argv : List Text) (h : History)
    → (held (main cobra argv h).1 ≡ held h)
      ⊎ ((d : Text) × (held (main cobra argv h).1 ≡ temp d ∷ held h))
unfolding main EndsStopped
main_stopped cobra argv h =
    Everywhere-execute cobra argv h (EndsStopped h) (λ r. inl refl) (stopped-Everywhere h)
