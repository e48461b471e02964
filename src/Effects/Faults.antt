-- ===== src/Effects/Faults.antt =====
-- Calls that fail. An action is honest if an error of it comes with a call that failed.
pub mod Calls
use uki.Base.{
  ℕ, ◌+◌, ◌≤◌, Bool, true, false, String, Text, ◌∷◌, [], List, ◌≡◌, refl, arith, if◌then◌else◌,
}
use uki.Effects.{
  Error, Result, ok, err, Event, History, Exec, Env, Call, Handle, pure, fail, fail_if, lift,
  wrapped, wrapping, replacing, succeeds, ignoring, deferring, continue, with_file, with_temp,
  close, remove_all, mkdir_temp, ◌>>=◌, perform,
}
use uki.Effects.Hoare.{Triple, After}

abbrev pub failed {ℓ} : {A : Type ℓ} → Result A → ℕ
failed (ok _) = 0
failed (err _) = 1

-- The number of calls that were answered with an error.
abbrev pub failures : History → ℕ
failures [] = 0
failures (e ∷ h) = failed e.reply + failures h

pub record IsHonest {ℓ} {A : Type ℓ} (m : Exec A) : Type ℓ where
  pub at : (h : History) → failures h + failed (m h).0 ≤ failures (m h).1

module _ {ℓ} {A : Type ℓ} where
  pub IsHonest-pure : (a : A) → IsHonest (pure a)
  unfolding pure
  IsHonest-pure a = record { at = λ h. omega arith }

  pub IsHonest-lift : (r : Result A) {a : A} → r ≡ ok a → IsHonest (lift r)
  unfolding lift
  IsHonest-lift r e = rw e (record { at = λ h. omega arith })

  failed-wrapped :
      (format : String) (args : List Text) (r : Result A)
      → failed (wrapped format args r) ≡ failed r
  unfolding wrapped
  failed-wrapped format args (ok a) = refl
  failed-wrapped format args (err e) = refl

  pub IsHonest-wrapping :
      (format : String) (args : List Text) (m : Exec A)
      → IsHonest m
      → IsHonest (wrapping format args m)
  unfolding wrapping
  IsHonest-wrapping format args m b = record {
    at = λ h. rw (failed-wrapped format args (m h).0) (b.at h);
  }

  pub IsHonest-replacing : (e : Error) (m : Exec A) → IsHonest m → IsHonest (replacing e m)
  unfolding replacing
  IsHonest-replacing e m b = record { at = λ h. go h (m h).0 (failures (m h).1) (b.at h) }
    where
      go :
          (h : History) (r : Result A) (n : ℕ)
          → failures h + failed r ≤ n
          → failures h + failed {A = A} (elim r [ ok a ↦ ok a | err _ ↦ err e ]) ≤ n
      go h (ok a) n l = l
      go h (err _) n l = l

  pub IsHonest-succeeds : (m : Exec A) → IsHonest m → IsHonest (succeeds m)
  unfolding succeeds
  IsHonest-succeeds m b = record { at = λ h. let l = b.at h in omega arith }

  pub IsHonest-if :
      (b : Bool) (m n : Exec A) → IsHonest m → IsHonest n → IsHonest (if b then m else n)
  IsHonest-if true m n bm bn = bm
  IsHonest-if false m n bm bn = bn

  pub IsHonest-ignoring : (m : Exec A) → IsHonest m → IsHonest (ignoring m)
  unfolding ignoring
  IsHonest-ignoring m b = record { at = λ h. let l = b.at h in omega arith }

  pub IsHonest-deferring :
      (d : Exec (Unit {0})) (m : Exec A) → IsHonest d → IsHonest m → IsHonest (deferring d m)
  unfolding deferring
  IsHonest-deferring d m bd bm = record {
    at = λ h. let l = bm.at h in let k = bd.at (m h).1 in omega arith;
  }

pub IsHonest-fail_if : (b : Bool) (e : Error) → b ≡ false → IsHonest (fail_if b e)
unfolding fail_if
IsHonest-fail_if b e q = rw q (IsHonest-pure tt)

module _ {ℓ κ} {A : Type ℓ} {B : Type κ} where
  IsHonest-continue :
      (f : A → Exec B) (r : Result A) (h h' : History)
      → ((a : A) → IsHonest (f a))
      → failures h + failed r ≤ failures h'
      → failures h + failed (continue r f h').0 ≤ failures (continue r f h').1
  IsHonest-continue f (ok a) h h' b l = let k = (b a).at h' in omega arith
  IsHonest-continue f (err e) h h' b l = l

  pub IsHonest-bind :
      (m : Exec A) (f : A → Exec B) → IsHonest m → ((a : A) → IsHonest (f a)) → IsHonest (m >>= f)
  unfolding ◌>>=◌
  IsHonest-bind m f bm bf = record { at = λ h. IsHonest-continue f (m h).0 h (m h).1 bf (bm.at h) }

module _ {ℓ κ} {A : Type ℓ} {B : Type κ} (r : Result A) (f : A → Exec B) {a : A}
    (e : r ≡ ok a) where
  -- What follows a value that is known.
  pub IsHonest-given : IsHonest (f a) → IsHonest (lift r >>= f)
  unfolding ◌>>=◌ lift
  IsHonest-given b = rw e (record { at = b.at })

  pub Triple-given :
      {P : History → Type 0} {Q : B → History → Type 0} {E : History → Type 0}
      → Triple P (f a) Q E
      → Triple P (lift r >>= f) Q E
  unfolding ◌>>=◌ lift
  Triple-given t = rw e (record { at = t.at })

module _ {ℓ κ} {A : Type ℓ} {B : Type κ} (Q : A → Type 0) where
  IsHonest-continue_with :
      (f : A → Exec B) (r : Result A) (h h' : History)
      → ((a : A) → Q a → IsHonest (f a))
      → After (λ a _. Q a) (λ _. Unit {0}) (r, h')
      → failures h + failed r ≤ failures h'
      → failures h + failed (continue r f h').0 ≤ failures (continue r f h').1
  IsHonest-continue_with f (ok a) h h' b q l = let k = (b a q).at h' in omega arith
  IsHonest-continue_with f (err e) h h' b q l = l

  -- The rule for what follows a value that satisfies `Q`.
  pub IsHonest-bind_with :
      (m : Exec A) (f : A → Exec B)
      → IsHonest m
      → Triple (λ _. Unit {0}) m (λ a _. Q a) (λ _. Unit {0})
      → ((a : A) → Q a → IsHonest (f a))
      → IsHonest (m >>= f)
  unfolding ◌>>=◌
  IsHonest-bind_with m f bm t bf = record {
    at = λ h. IsHonest-continue_with f (m h).0 h (m h).1 bf (t.at h tt) (bm.at h);
  }

module _ ⦃env : Env⦄ where
  pub IsHonest-perform : (c : Call) → IsHonest (perform c)
  unfolding perform
  IsHonest-perform c = record { at = λ h. omega arith }

  pub IsHonest-with_file {ℓ} :
      {A : Type ℓ} (opened : Exec Handle) (m : Handle → Exec A)
      → IsHonest opened
      → ((f : Handle) → IsHonest (m f))
      → IsHonest (with_file opened m)
  unfolding with_file
  IsHonest-with_file opened m go gm =
      IsHonest-bind _ _ go
        (λ f. IsHonest-deferring _ _ (IsHonest-ignoring _ (IsHonest-perform (close f))) (gm f))

  pub IsHonest-with_temp {ℓ} :
      {A : Type ℓ} (p : Text) (m : Text → Exec A)
      → ((d : Text) → IsHonest (m d))
      → IsHonest (with_temp p m)
  unfolding with_temp
  IsHonest-with_temp p m gm =
      IsHonest-bind _ _ (IsHonest-perform (mkdir_temp p))
        (λ d. IsHonest-deferring _ _ (IsHonest-ignoring _ (IsHonest-perform (remove_all d))) (gm d))

-- Any action, with nothing said of its outcome.
pub Triple-any {ℓ} :
    {A : Type ℓ} (m : Exec A) → Triple (λ _. Unit {0}) m (λ (_ : A) _. Unit {0}) (λ _. Unit {0})
Triple-any {A} m = record { at = λ h _. go (m h) }
  where
    go : (x : Result A × History) → After (λ (_ : A) _. Unit {0}) (λ _. Unit {0}) x
    go (ok a, h) = tt
    go (err e, h) = tt

-- If no call of an honest action failed, it returns no error.
pub IsHonest-succeeded :
    {m : Exec (Unit {0})} (h : History)
    → IsHonest m
    → failures (m h).1 ≡ failures h
    → (m h).0 ≡ ok tt
IsHonest-succeeded {m} h b e = go (m h).0 (let l = b.at h in omega arith)
  where
    go : (r : Result (Unit {0})) → failed r ≤ 0 → r ≡ ok tt
    go (ok tt) l = refl
    go (err x) l = absurd (omega arith)

pub ruleset honest_rules = (
  IsHonest-pure, IsHonest-wrapping, IsHonest-replacing, IsHonest-succeeds, IsHonest-if,
  IsHonest-ignoring, IsHonest-deferring, IsHonest-with_file, IsHonest-with_temp, IsHonest-bind,
  IsHonest-perform,
)
