-- ===== src/Effects/Only.antt =====
-- Actions that make only calls of a given kind.
pub mod Calls
pub mod Growth
use uki.Base.{Bool, true, false, String, Text, [], ◌∷◌, List, ◌≡◌, refl, ◌∙◌, if◌then◌else◌}
use uki.Effects.{
  Error, Result, ok, err, Event, History, Exec, Env, Call, Handle, pure, fail, fail_if, lift,
  wrapping, replacing, succeeds, ignoring, deferring, continue, with_file, with_temp, close,
  remove_all, mkdir_temp, ◌>>=◌, perform,
}

-- The second history is the first with further calls, all of them of the kind `P`.
pub data Adds (P : Call → Type 0) (h : History) : History → Type 0 where
  same : Adds P h h
  more : {h' : History} {e : Event} → P e.call → Adds P h h' → Adds P h (e ∷ h')

Adds-trans : {P : Call → Type 0} {a b c : History} → Adds P a b → Adds P b c → Adds P a c
Adds-trans s same = s
Adds-trans s (more l t) = more l (Adds-trans s t)

pub record Only {ℓ} {A : Type ℓ} (P : Call → Type 0) (m : Exec A) : Type ℓ where
  pub at : (h : History) → Adds P h (m h).1

-- A wider kind.
pub Only-weaken {ℓ} :
    {A : Type ℓ} (P Q : Call → Type 0) (m : Exec A) → ((c : Call) → P c → Q c) → Only P m → Only Q m
Only-weaken P Q m w o = record { at = λ h. go (o.at h) }
  where
    go : {h h' : History} → Adds P h h' → Adds Q h h'
    go same = same
    go (more {e = e} p a) = more (w e.call p) (go a)

module _ {ℓ} {A : Type ℓ} {P : Call → Type 0} where
  pub Only-pure : (a : A) → Only P (pure a)
  unfolding pure
  Only-pure a = record { at = λ h. same }

  pub Only-fail : (e : Error) → Only P (fail {A = A} e)
  unfolding fail
  Only-fail e = record { at = λ h. same }

  pub Only-lift : (r : Result A) → Only P (lift r)
  unfolding lift
  Only-lift r = record { at = λ h. same }

  pub Only-wrapping :
      (format : String) (args : List Text) (m : Exec A) → Only P m → Only P (wrapping format args m)
  unfolding wrapping
  Only-wrapping format args m g = record { at = g.at }

  pub Only-replacing : (e : Error) (m : Exec A) → Only P m → Only P (replacing e m)
  unfolding replacing
  Only-replacing e m g = record { at = g.at }

  pub Only-succeeds : (m : Exec A) → Only P m → Only P (succeeds m)
  unfolding succeeds
  Only-succeeds m g = record { at = g.at }

  pub Only-if : (b : Bool) (m n : Exec A) → Only P m → Only P n → Only P (if b then m else n)
  Only-if true m n gm gn = gm
  Only-if false m n gm gn = gn

  pub Only-ignoring : (m : Exec A) → Only P m → Only P (ignoring m)
  unfolding ignoring
  Only-ignoring m g = record { at = g.at }

  pub Only-deferring :
      (d : Exec (Unit {0})) (m : Exec A) → Only P d → Only P m → Only P (deferring d m)
  unfolding deferring
  Only-deferring d m gd gm = record { at = λ h. Adds-trans (gm.at h) (gd.at (m h).1) }

pub Only-fail_if : {P : Call → Type 0} (b : Bool) (e : Error) → Only P (fail_if b e)
unfolding fail_if
Only-fail_if b e = Only-if b _ _ (Only-fail e) (Only-pure tt)

module _ {ℓ κ} {A : Type ℓ} {B : Type κ} {P : Call → Type 0} where
  Only-continue :
      (f : A → Exec B) (r : Result A) (h : History)
      → ((a : A) → Only P (f a))
      → Adds P h (continue r f h).1
  Only-continue f (ok a) h g = (g a).at h
  Only-continue f (err e) h g = same

  pub Only-bind :
      (m : Exec A) (f : A → Exec B) → Only P m → ((a : A) → Only P (f a)) → Only P (m >>= f)
  unfolding ◌>>=◌
  Only-bind m f gm gf = record {
    at = λ h. Adds-trans (gm.at h) (Only-continue f (m h).0 (m h).1 gf);
  }

module _ ⦃env : Env⦄ {P : Call → Type 0} where
  pub Only-perform : (c : Call) → P c → Only P (perform c)
  unfolding perform
  Only-perform c l = record { at = λ h. more l same }

  pub Only-with_file {ℓ} :
      {A : Type ℓ} (opened : Exec Handle) (m : Handle → Exec A)
      → ((f : Handle) → P (close f))
      → Only P opened
      → ((f : Handle) → Only P (m f))
      → Only P (with_file opened m)
  unfolding with_file
  Only-with_file opened m c go gm =
      Only-bind _ _ go
        (λ f. Only-deferring _ _ (Only-ignoring _ (Only-perform (close f) (c f))) (gm f))

  pub Only-with_temp {ℓ} :
      {A : Type ℓ} (p : Text) (m : Text → Exec A)
      → P (mkdir_temp p)
      → ((d : Text) → P (remove_all d))
      → ((d : Text) → Only P (m d))
      → Only P (with_temp p m)
  unfolding with_temp
  Only-with_temp p m t r gm =
      Only-bind _ _ (Only-perform (mkdir_temp p) t)
        (λ d. Only-deferring _ _ (Only-ignoring _ (Only-perform (remove_all d) (r d))) (gm d))

pub ruleset only_rules = (
  Only-pure, Only-fail, Only-lift, Only-wrapping, Only-replacing, Only-succeeds, Only-if,
  Only-ignoring, Only-deferring, Only-fail_if, Only-with_file, Only-with_temp, Only-bind,
)
