-- ===== src/Effects/Asks.antt =====
-- Actions that make a call before anything else.
use uki.Base.{◌+◌, ◌≤◌, length, arith}
use uki.Effects.{
  Call, Env, Error, Exec, History, Result, ok, err, continue, perform, replacing, succeeds, ◌>>=◌,
}
use uki.Effects.Grows.{Grows, IsSuffix, same, more}

-- Whatever it returns, and whatever the replies are, `m` makes a call.
pub record Asks {ℓ} {A : Type ℓ} (m : Exec A) : Type ℓ where
  pub at : (h : History) → length h + 1 ≤ length (m h).1

length-IsSuffix : {h h' : History} → IsSuffix h h' → length h ≤ length h'
length-IsSuffix same = omega arith
length-IsSuffix (more s) = let l = length-IsSuffix s in omega (arith, l)

pub Asks-perform : ⦃env : Env⦄ (c : Call) → Asks (perform c)
unfolding perform
Asks-perform c = record { at = λ h. omega arith }

module _ {ℓ} {A : Type ℓ} where
  pub Asks-replacing : (e : Error) (m : Exec A) → Asks m → Asks (replacing e m)
  unfolding replacing
  Asks-replacing e m a = record { at = a.at }

  pub Asks-succeeds : (m : Exec A) → Asks m → Asks (succeeds m)
  unfolding succeeds
  Asks-succeeds m a = record { at = a.at }

module _ {ℓ κ} {A : Type ℓ} {B : Type κ} (f : A → Exec B) where
  length-continue :
      (r : Result A) (h : History) → ((a : A) → Grows (f a)) → length h ≤ length (continue r f h).1
  length-continue (ok a) h g = length-IsSuffix ((g a).at h)
  length-continue (err e) h g = omega arith

  pub Asks-bind : (m : Exec A) → Asks m → ((a : A) → Grows (f a)) → Asks (m >>= f)
  unfolding ◌>>=◌
  Asks-bind m a g = record { at = λ h. omega (arith, a.at h, length-continue (m h).0 (m h).1 g) }
