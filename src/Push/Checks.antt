-- ===== src/Push/Checks.antt =====
-- What the subcommands of cmd/cloud-boot/push check before their first call.
use uki.Base.{Text, Bool, true, false, ◌≡◌, refl, ◌⊎◌, inl, inr, is_empty, ◌||◌}
use uki.Oci.{Ref}
use uki.Effects.{Env, Error, Exec, History, Result, ok, err, fail_if, lift, ◌>>=◌, ◌>>◌, pure, fail}
use uki.Cliutil.{parse_platform}
use uki.Push.Artifact
use uki.Push.Artifact.{lacks_payload}
use uki.Push.Index
use uki.Push.Index.{is_nil}
use uki.Push.Plan
use uki.Push.Multi
use uki.Push.Multi.{unique_platforms}
use uki.Push.Multi.Delivery.{flags}
use uki.Push.Modpack

-- An error is returned, and no call was made.
abbrev pub Refuses : Exec (Unit {0}) → History → Type 0
Refuses m h = (e : Error) × (m h ≡ (err e, h))

module _ {V : Type 0} (h : History) where
  -- A condition that is refused, or is known to fail behind it.
  checked_if :
      (b : Bool) (e : Error) (m : Exec (Unit {0}))
      → (b ≡ false → Refuses m h ⊎ V)
      → Refuses (fail_if b e >> m) h ⊎ V
  unfolding fail_if ◌>>=◌ pure fail
  checked_if true e m f = inl (e, refl)
  checked_if false e m f = f refl

  -- A text that is refused, or has a value.
  checked_lift :
      {A : Type 0} (r : Result A) (f : A → Exec (Unit {0}))
      → ((a : A) → r ≡ ok a → Refuses (f a) h ⊎ V)
      → Refuses (lift r >>= f) h ⊎ V
  unfolding lift ◌>>=◌
  checked_lift (ok a) f g = g a refl
  checked_lift (err e) f g = inl (e, refl)

-- The arguments of each subcommand, where they are accepted.
module _ ⦃env : Env⦄ where
  abbrev pub ArtifactIsValid : Artifact.Opts → Type 0
  ArtifactIsValid o =
      (os_name : Text) × (arch : Text) × (ref : Ref) × (parse_platform o.platform
        ≡ ok (os_name, arch))
      × (lacks_payload o ≡ false)
      × (env.parse_ref o.ref ≡ ok ref)

  abbrev pub IndexIsValid : Index.Opts → Type 0
  IndexIsValid o = (ref : Ref) × (is_nil o.platforms ≡ false) × (env.parse_ref o.out_ref ≡ ok ref)

  abbrev pub PlanIsValid : Plan.Opts → Type 0
  PlanIsValid o = (ref : Ref) × (is_empty o.file ≡ false) × (env.parse_ref o.ref ≡ ok ref)

  abbrev pub MultiIsValid : Multi.Opts → Type 0
  MultiIsValid o =
      (ref : Ref) × (is_nil (unique_platforms (flags o)) ≡ false) × (env.parse_ref o.ref ≡ ok ref)

  abbrev pub ModpackIsValid : Modpack.Opts → Type 0
  ModpackIsValid o = (is_empty o.src || is_empty o.out) ≡ false

  artifact_checked :
      (o : Artifact.Opts) (h : History) → Refuses (Artifact.run o) h ⊎ ArtifactIsValid o
  unfolding Artifact.run
  artifact_checked o h = checked_if h _ _ _ (λ _.
      checked_lift h _ _ (λ p e.
        checked_if h _ _ _ (λ l. checked_lift h _ _ (λ ref f. inr (p.0, p.1, ref, e, l, f)))))

  index_checked : (o : Index.Opts) (h : History) → Refuses (Index.run o) h ⊎ IndexIsValid o
  unfolding Index.run
  index_checked o h = checked_if h _ _ _ (λ l. checked_lift h _ _ (λ ref f. inr (ref, l, f)))

  plan_checked : (o : Plan.Opts) (h : History) → Refuses (Plan.run o) h ⊎ PlanIsValid o
  unfolding Plan.run
  plan_checked o h = checked_if h _ _ _ (λ l. checked_lift h _ _ (λ ref f. inr (ref, l, f)))

  multi_checked : (o : Multi.Opts) (h : History) → Refuses (Multi.run o) h ⊎ MultiIsValid o
  unfolding Multi.run
  multi_checked o h = checked_if h _ _ _ (λ l. checked_lift h _ _ (λ ref f. inr (ref, l, f)))

  modpack_checked : (o : Modpack.Opts) (h : History) → Refuses (Modpack.run o) h ⊎ ModpackIsValid o
  unfolding Modpack.run
  modpack_checked o h = checked_if h _ _ _ (λ l. inr l)

-- Each subcommand of `push` returns an error without any call, or its arguments are valid: a
-- platform, some payload and a reference for `artifact`; some platform and a reference for `index`;
-- a file and a reference for `plan`; some entry and a reference for `multi`; a source and an output
-- for `modpack`. So nothing is read, uploaded or written before the arguments are known to be valid.
pub push_checked :
    ⦃env : Env⦄ (a : Artifact.Opts) (i : Index.Opts) (p : Plan.Opts) (m : Multi.Opts)
    (k : Modpack.Opts) (h : History)
    → (Refuses (Artifact.run a) h ⊎ ArtifactIsValid a)
      × (Refuses (Index.run i) h ⊎ IndexIsValid i)
      × (Refuses (Plan.run p) h ⊎ PlanIsValid p)
      × (Refuses (Multi.run m) h ⊎ MultiIsValid m)
      × (Refuses (Modpack.run k) h ⊎ ModpackIsValid k)
push_checked a i p m k h = (
  artifact_checked a h,
  index_checked i h,
  plan_checked p h,
  multi_checked m h,
  modpack_checked k h,
)
