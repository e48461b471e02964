-- ===== src/Effects/Costs.antt =====
-- How many calls an action makes at most, by the way it is built.
use uki.Base.{ℕ, ◌+◌, ◌≤◌, Bool, true, false, String, Text, List, length, arith, if◌then◌else◌}
use uki.Effects.{
  Arg, Call, Env, Error, Exec, Handle, History, Result, ok, err, close, continue, deferring, fail,
  fail_if, ignoring, lift, log, log_format, mkdir_temp, perform, print, print_line, pure,
  remove_all, replacing, succeeds, with_file, with_temp, wrapping, ◌>>=◌,
}
use uki.Effects.Hoare.{Triple, After}

-- Whatever it returns, and whatever the replies are, `m` makes at most `n` calls.
pub record Costs {ℓ} {A : Type ℓ} (n : ℕ) (m : Exec A) : Type ℓ where
  pub at : (h : History) → length (m h).1 ≤ n + length h

module _ {ℓ} {A : Type ℓ} where
  pub Costs-weaken : (n k : ℕ) (m : Exec A) → n ≤ k → Costs n m → Costs k m
  Costs-weaken n k m le c = record { at = λ h. omega (arith, c.at h, le) }

  pub Costs-pure : (a : A) → Costs 0 (pure a)
  unfolding pure
  Costs-pure a = record { at = λ h. omega arith }

  pub Costs-fail : (e : Error) → Costs 0 (fail {A = A} e)
  unfolding fail
  Costs-fail e = record { at = λ h. omega arith }

  pub Costs-lift : (r : Result A) → Costs 0 (lift r)
  unfolding lift
  Costs-lift r = record { at = λ h. omega arith }

  pub Costs-wrapping :
      {n : ℕ} (format : String) (args : List Text) (m : Exec A)
      → Costs n m
      → Costs n (wrapping format args m)
  unfolding wrapping
  Costs-wrapping format args m c = record { at = c.at }

  pub Costs-replacing : {n : ℕ} (e : Error) (m : Exec A) → Costs n m → Costs n (replacing e m)
  unfolding replacing
  Costs-replacing e m c = record { at = c.at }

  pub Costs-succeeds : {n : ℕ} (m : Exec A) → Costs n m → Costs n (succeeds m)
  unfolding succeeds
  Costs-succeeds m c = record { at = c.at }

  pub Costs-ignoring : {n : ℕ} (m : Exec A) → Costs n m → Costs n (ignoring m)
  unfolding ignoring
  Costs-ignoring m c = record { at = c.at }

  pub Costs-if :
      (n : ℕ) (b : Bool) (m p : Exec A) → Costs n m → Costs n p → Costs n (if b then m else p)
  Costs-if n true m p cm cp = cm
  Costs-if n false m p cm cp = cp

  -- One branch makes no call.
  pub Costs-unless :
      (n : ℕ) (b : Bool) (m p : Exec A) → Costs 0 m → Costs n p → Costs n (if b then m else p)
  Costs-unless n b m p cm cp = Costs-if n b m p (Costs-weaken 0 n m (omega arith) cm) cp

  pub Costs-deferring :
      (n k : ℕ) (d : Exec (Unit {0})) (m : Exec A)
      → Costs n d
      → Costs k m
      → Costs (k + n) (deferring d m)
  unfolding deferring
  Costs-deferring n k d m cd cm = record { at = λ h. omega (arith, cm.at h, cd.at (m h).1) }

pub Costs-fail_if : (b : Bool) (e : Error) → Costs 0 (fail_if b e)
unfolding fail_if
Costs-fail_if b e = Costs-if 0 b _ _ (Costs-fail e) (Costs-pure tt)

module _ {ℓ κ} {A : Type ℓ} {B : Type κ} where
  Costs-continue :
      (k : ℕ) (f : A → Exec B) (r : Result A) (h : History)
      → ((a : A) → Costs k (f a))
      → length (continue r f h).1 ≤ k + length h
  Costs-continue k f (ok a) h c = (c a).at h
  Costs-continue k f (err e) h c = omega arith

  pub Costs-bind :
      (n k : ℕ) (m : Exec A) (f : A → Exec B)
      → Costs n m
      → ((a : A) → Costs k (f a))
      → Costs (n + k) (m >>= f)
  unfolding ◌>>=◌
  Costs-bind n k m f cm cf = record {
    at = λ h. omega (arith, cm.at h, Costs-continue k f (m h).0 (m h).1 cf);
  }

module _ {ℓ κ} {A : Type ℓ} {B : Type κ} (P : A → Type 0) where
  Costs-continue_returned :
      (k : ℕ) (f : A → Exec B) (r : Result A) (h : History)
      → After (λ a _. P a) (λ _. Unit {0}) (r, h)
      → ((a : A) → P a → Costs k (f a))
      → length (continue r f h).1 ≤ k + length h
  Costs-continue_returned k f (ok a) h p c = (c a p).at h
  Costs-continue_returned k f (err e) h p c = omega arith

  -- What follows is bounded by what is known of the value.
  pub Costs-bind_returned :
      (n k : ℕ) (m : Exec A) (f : A → Exec B)
      → Costs n m
      → Triple (λ _. Unit {0}) m (λ a _. P a) (λ _. Unit {0})
      → ((a : A) → P a → Costs k (f a))
      → Costs (n + k) (m >>= f)
  unfolding ◌>>=◌
  Costs-bind_returned n k m f cm t cf = record {
    at = λ h. omega (arith, cm.at h, Costs-continue_returned k f (m h).0 (m h).1 (t.at h tt) cf);
  }

module _ ⦃env : Env⦄ where
  pub Costs-perform : (c : Call) → Costs 1 (perform c)
  unfolding perform
  Costs-perform c = record { at = λ h. omega arith }

  pub Costs-log : (format : String) (args : List Arg) → Costs 1 (log format args)
  unfolding log
  Costs-log format args = Costs-ignoring _ (Costs-perform (log_format format args))

  pub Costs-print : (t : Text) → Costs 1 (print t)
  unfolding print
  Costs-print t = Costs-ignoring _ (Costs-perform (print_line t))

  -- The file is closed.
  pub Costs-with_file {ℓ} :
      {A : Type ℓ} (n k : ℕ) (opened : Exec Handle) (m : Handle → Exec A)
      → Costs n opened
      → ((f : Handle) → Costs k (m f))
      → Costs (n + (k + 1)) (with_file opened m)
  unfolding with_file
  Costs-with_file n k opened m co cm =
      Costs-bind n (k + 1) _ _ co
        (λ f. Costs-deferring 1 k _ _ (Costs-ignoring _ (Costs-perform (close f))) (cm f))

  -- The directory is made, and removed.
  pub Costs-with_temp {ℓ} :
      {A : Type ℓ} (k : ℕ) (p : Text) (m : Text → Exec A)
      → ((d : Text) → Costs k (m d))
      → Costs (1 + (k + 1)) (with_temp p m)
  unfolding with_temp
  Costs-with_temp k p m cm =
      Costs-bind 1 (k + 1) _ _ (Costs-perform (mkdir_temp p))
        (λ d. Costs-deferring 1 k _ _ (Costs-ignoring _ (Costs-perform (remove_all d))) (cm d))
