-- ===== src/Effects/Grows.antt =====
-- No action takes back a call: a history only grows. So what a history shows once, it shows for
-- good.
pub mod Calls
use uki.Base.{Bool, true, false, String, Text, ◌∷◌, List, if◌then◌else◌}
use uki.Effects.{
  Error, Result, ok, err, Event, History, Exec, Env, Call, pure, fail, fail_if, lift, wrapping,
  ignoring, deferring, continue, with_file, close, Handle, ◌>>=◌, perform,
}
use uki.Effects.Hoare.{Triple, After}

-- The second history ends in the first.
pub data IsSuffix (h : History) : History → Type 0 where
  same : IsSuffix h h
  more : {h' : History} {e : Event} → IsSuffix h h' → IsSuffix h (e ∷ h')

IsSuffix-trans : {a b c : History} → IsSuffix a b → IsSuffix b c → IsSuffix a c
IsSuffix-trans s same = s
IsSuffix-trans s (more t) = more (IsSuffix-trans s t)

pub record Grows {ℓ} {A : Type ℓ} (m : Exec A) : Type ℓ where
  pub at : (h : History) → IsSuffix h (m h).1

module _ {ℓ} {A : Type ℓ} where
  pub Grows-pure : (a : A) → Grows (pure a)
  unfolding pure
  Grows-pure a = record { at = λ h. same }

  pub Grows-fail : (e : Error) → Grows (fail {A = A} e)
  unfolding fail
  Grows-fail e = record { at = λ h. same }

  pub Grows-lift : (r : Result A) → Grows (lift r)
  unfolding lift
  Grows-lift r = record { at = λ h. same }

  pub Grows-wrapping :
      (format : String) (args : List Text) (m : Exec A) → Grows m → Grows (wrapping format args m)
  unfolding wrapping
  Grows-wrapping format args m g = record { at = g.at }

  pub Grows-if : (b : Bool) (m n : Exec A) → Grows m → Grows n → Grows (if b then m else n)
  Grows-if true m n gm gn = gm
  Grows-if false m n gm gn = gn

  pub Grows-ignoring : (m : Exec A) → Grows m → Grows (ignoring m)
  unfolding ignoring
  Grows-ignoring m g = record { at = g.at }

  pub Grows-deferring :
      (d : Exec (Unit {0})) (m : Exec A) → Grows d → Grows m → Grows (deferring d m)
  unfolding deferring
  Grows-deferring d m gd gm = record { at = λ h. IsSuffix-trans (gm.at h) (gd.at (m h).1) }

pub Grows-fail_if : (b : Bool) (e : Error) → Grows (fail_if b e)
unfolding fail_if
Grows-fail_if b e = Grows-if b _ _ (Grows-fail e) (Grows-pure tt)

module _ {ℓ κ} {A : Type ℓ} {B : Type κ} where
  Grows-continue :
      (f : A → Exec B) (r : Result A) (h : History)
      → ((a : A) → Grows (f a))
      → IsSuffix h (continue r f h).1
  Grows-continue f (ok a) h g = (g a).at h
  Grows-continue f (err e) h g = same

  pub Grows-bind :
      (m : Exec A) (f : A → Exec B) → Grows m → ((a : A) → Grows (f a)) → Grows (m >>= f)
  unfolding ◌>>=◌
  Grows-bind m f gm gf = record {
    at = λ h. IsSuffix-trans (gm.at h) (Grows-continue f (m h).0 (m h).1 gf);
  }

pub Grows-perform : ⦃env : Env⦄ (c : Call) → Grows (perform c)
unfolding perform
Grows-perform c = record { at = λ h. more same }

pub Grows-with_file {ℓ} :
    ⦃env : Env⦄ {A : Type ℓ} (opened : Exec Handle) (m : Handle → Exec A)
    → Grows opened
    → ((f : Handle) → Grows (m f))
    → Grows (with_file opened m)
unfolding with_file
Grows-with_file opened m go gm =
    Grows-bind _ _ go (λ f. Grows-deferring _ _ (Grows-ignoring _ (Grows-perform (close f))) (gm f))

pub ruleset grows_rules = (
  Grows-pure, Grows-fail, Grows-lift, Grows-wrapping, Grows-if, Grows-ignoring, Grows-deferring,
  Grows-fail_if, Grows-with_file, Grows-bind, Grows-perform,
)

-- What further calls do not undo.
pub record Lasts (F : History → Type 0) : Type 0 where
  pub later : (h : History) (e : Event) → F h → F (e ∷ h)

pub Lasts-suffix : {F : History → Type 0} {h h' : History} → Lasts F → IsSuffix h h' → F h → F h'
Lasts-suffix l same f = f
Lasts-suffix {h} l (more {h' = k} {e = e} s) f = l.later k e (Lasts-suffix l s f)

module _ {ℓ} {A : Type ℓ} (Q : A → History → Type 0) (E F : History → Type 0) where
  After-frame :
      (r : Result A) (h : History)
      → F h
      → After Q E (r, h)
      → After (λ a h. F h × Q a h) (λ h. F h × E h) (r, h)
  After-frame (ok a) h f x = (f, x)
  After-frame (err e) h f x = (f, x)

-- The rule of framing.
pub Triple-frame {ℓ} :
    {A : Type ℓ} {P : History → Type 0} {Q : A → History → Type 0} {E : History → Type 0}
    (F : History → Type 0) (m : Exec A)
    → Lasts F
    → Grows m
    → Triple P m Q E
    → Triple (λ h. F h × P h) m (λ a h. F h × Q a h) (λ h. F h × E h)
Triple-frame {Q} {E} F m l g t = record {
  at = λ h (f, p).
      let (r, h') = m h in After-frame Q E F r h' (Lasts-suffix l (g.at h) f) (t.at h p);
}
