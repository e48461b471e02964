-- ===== src/Effects/Hoare.antt =====
-- Rules to prove what an action leaves behind, one for each way to build an action.
use uki.Base.{◌≡◌, refl, Bool, true, false, String, Text, List, ◌∷◌, if◌then◌else◌}
use uki.Effects.{
  Arg, log, log_format, Error, Result, ok, err, History, Exec, Env, Call, Reply, pure, fail,
  fail_if, lift, wrapped, ◌>>◌, continue, succeeds, wrapping, ignoring, deferring, ◌>>=◌, perform,
}

-- What holds of an outcome: `Q` of a value and the history, `E` of the history behind an error.
abbrev pub After {ℓ κ} :
    {A : Type ℓ} → (A → History → Type κ) → (History → Type κ) → Result A × History → Type κ
After Q E (ok a, h) = Q a h
After Q E (err e, h) = E h

-- From a history with `P`, `m` ends as `After Q E` says.
pub record Triple {ℓ κ} {A : Type ℓ} (P : History → Type κ) (m : Exec A) (Q : A → History → Type κ)
    (E : History → Type κ) : Type (ℓ ⊔ κ) where
  pub at : (h : History) → P h → After Q E (m h)

module _ {ℓ κ} {A : Type ℓ} (Q : A → History → Type κ) (E : History → Type κ) where
  After-wrapped :
      (format : String) (args : List Text) (r : Result A) (h : History)
      → After Q E (r, h)
      → After Q E (wrapped format args r, h)
  unfolding wrapped
  After-wrapped format args (ok a) h x = x
  After-wrapped format args (err e) h x = x

  After-deferred :
      (d : Exec (Unit {0})) (r : Result A) (h : History)
      → ((a : A) → Triple (Q a) d (λ _. Q a) (Q a))
      → Triple E d (λ _. E) E
      → After Q E (r, h)
      → After Q E (r, (d h).1)
  After-deferred d (ok a) h dq de x = both (d h) ((dq a).at h x)
    where
      both : (o : Result (Unit {0}) × History) → After (λ _. Q a) (Q a) o → Q a o.1
      both (ok _, h') y = y
      both (err _, h') y = y
  After-deferred d (err e) h dq de x = both (d h) (de.at h x)
    where
      both : (o : Result (Unit {0}) × History) → After (λ _. E) E o → E o.1
      both (ok _, h') y = y
      both (err _, h') y = y

module _ {ℓ κ ι} {A : Type ℓ} {B : Type κ} (Q : B → History → Type ι) (E : History → Type ι) where
  After-continue :
      (R : A → History → Type ι) (f : A → Exec B) (o : Result A × History)
      → ((a : A) → Triple (R a) (f a) Q E)
      → After R E o
      → After Q E (continue o.0 f o.1)
  After-continue R f (ok a, h) tf x = (tf a).at h x
  After-continue R f (err e, h) tf x = x

module _ {ℓ κ} {A : Type ℓ} {P : History → Type κ} {Q : A → History → Type κ}
    {E : History → Type κ} where
  pub Triple-pure : (a : A) → ((h : History) → P h → Q a h) → Triple P (pure a) Q E
  unfolding pure
  Triple-pure a q = record { at = q }

  pub Triple-fail : (e : Error) → ((h : History) → P h → E h) → Triple P (fail {A = A} e) Q E
  unfolding fail
  Triple-fail e q = record { at = q }

  pub Triple-lift :
      (r : Result A)
      → ((h : History) (a : A) → r ≡ ok a → P h → Q a h)
      → ((h : History) → P h → E h)
      → Triple P (lift r) Q E
  unfolding lift
  Triple-lift (ok a) q e = record { at = λ h p. q h a refl p }
  Triple-lift (err x) q e = record { at = e }

  pub Triple-wrapping :
      (format : String) (args : List Text) (m : Exec A)
      → Triple P m Q E
      → Triple P (wrapping format args m) Q E
  unfolding wrapping
  Triple-wrapping format args m t = record {
    at = λ h p. let (r, h') = m h in After-wrapped Q E format args r h' (t.at h p);
  }

  pub Triple-weaken :
      {P' : History → Type κ} {R : A → History → Type κ} {E' : History → Type κ} (m : Exec A)
      → Triple P' m R E'
      → ((h : History) → P h → P' h)
      → ((a : A) (h : History) → R a h → Q a h)
      → ((h : History) → E' h → E h)
      → Triple P m Q E
  Triple-weaken {R} {E'} m t v w x = record { at = λ h p. go (m h) (t.at h (v h p)) }
    where
      go : (o : Result A × History) → After R E' o → After Q E o
      go (ok a, h') y = w a h' y
      go (err _, h') y = x h' y

  pub Triple-if :
      (b : Bool) (m n : Exec A)
      → (b ≡ true → Triple P m Q E)
      → (b ≡ false → Triple P n Q E)
      → Triple P (if b then m else n) Q E
  Triple-if true m n tm tn = tm refl
  Triple-if false m n tm tn = tn refl

  -- What `d` leaves alone, whatever it returns, survives a deferred `d`.
  pub Triple-deferring :
      (d : Exec (Unit {0})) (m : Exec A)
      → ((a : A) → Triple (Q a) d (λ _. Q a) (Q a))
      → Triple E d (λ _. E) E
      → Triple P m Q E
      → Triple P (deferring d m) Q E
  unfolding deferring
  Triple-deferring d m dq de t = record {
    at = λ h p. let (r, h') = m h in After-deferred Q E d r h' dq de (t.at h p);
  }

module _ {ℓ κ ι} {A : Type ℓ} {B : Type κ} {P : History → Type ι} {Q : B → History → Type ι}
    {E : History → Type ι} where
  pub Triple-bind :
      (R : A → History → Type ι) (m : Exec A) (f : A → Exec B)
      → Triple P m R E
      → ((a : A) → Triple (R a) (f a) Q E)
      → Triple P (m >>= f) Q E
  unfolding ◌>>=◌
  Triple-bind R m f tm tf = record { at = λ h p. After-continue Q E R f (m h) tf (tm.at h p) }

module _ {κ} {P : History → Type κ} {Q : Unit {0} → History → Type κ} {E : History → Type κ} where
  pub Triple-fail_if :
      (b : Bool) (e : Error)
      → ((h : History) → b ≡ false → P h → Q tt h)
      → ((h : History) → P h → E h)
      → Triple P (fail_if b e) Q E
  unfolding fail_if pure fail
  Triple-fail_if true e q x = record { at = x }
  Triple-fail_if false e q x = record { at = λ h p. q h refl p }

  pub Triple-ignoring :
      {A : Type 0} (m : Exec A) → Triple P m (λ _. Q tt) (Q tt) → Triple P (ignoring m) Q E
  unfolding ignoring
  Triple-ignoring {A} m t = record { at = λ h p. either (m h) (t.at h p) }
    where
      either : (o : Result A × History) → After (λ _. Q tt) (Q tt) o → Q tt o.1
      either (ok _, h') y = y
      either (err _, h') y = y

-- A check ahead of an action.
pub Triple-guard {κ} :
    {A : Type 0} {P : History → Type κ} {Q : A → History → Type κ} {E : History → Type κ} (b : Bool)
    (e : Error) (m : Exec A)
    → ((h : History) → P h → E h)
    → (b ≡ false → Triple P m Q E)
    → Triple P (fail_if b e >> m) Q E
unfolding fail_if ◌>>=◌ pure fail
Triple-guard true e m x t = record { at = x }
Triple-guard false e m x t = record { at = (t refl).at }

-- Two triples of one action.
pub Triple-both {ℓ κ} :
    {A : Type ℓ} {P : History → Type κ} {Q R : A → History → Type κ} {E F : History → Type κ}
    (m : Exec A)
    → Triple P m Q E
    → Triple P m R F
    → Triple P m (λ a h. Q a h × R a h) (λ h. E h × F h)
Triple-both {A} {Q} {R} {E} {F} m t u = record { at = λ h p. go (m h) (t.at h p) (u.at h p) }
  where
    go :
        (o : Result A × History)
        → After Q E o
        → After R F o
        → After (λ a h. Q a h × R a h) (λ h. E h × F h) o
    go (ok a, h) q r = (q, r)
    go (err e, h) q r = (q, r)

-- The test whether an action succeeds does not fail.
pub Triple-succeeds {κ} :
    {A : Type 0} {P : History → Type κ} {Q : Bool → History → Type κ} {E : History → Type κ}
    (m : Exec A)
    → Triple P m (λ _. Q true) (Q false)
    → Triple P (succeeds m) Q E
unfolding succeeds
Triple-succeeds {A} {Q = Q} {E = E} m t = record { at = λ h p. either (m h) (t.at h p) }
  where
    either :
        (o : Result A × History)
        → After (λ _. Q true) (Q false) o
        → After Q E (ok (elim o.0 [ ok _ ↦ true | err _ ↦ false ]), o.1)
    either (ok _, h') y = y
    either (err _, h') y = y

module _ {κ} ⦃env : Env⦄ {P : History → Type κ} where
  pub Triple-perform :
      (c : Call) {Q : Reply c → History → Type κ} {E : History → Type κ}
      → ((h : History) (a : Reply c) → P h → Q a (record { call = c; reply = ok a } ∷ h))
      → ((h : History) (e : Error) → P h → E (record { call = c; reply = err e } ∷ h))
      → Triple P (perform c) Q E
  unfolding perform
  Triple-perform c {Q} {E} q x = record { at = λ h p. go h p (env.answer h c) }
    where
      go :
          (h : History)
          → P h
          → (r : Result (Reply c)) → After Q E (r, record { call = c; reply = r } ∷ h)
      go h p (ok a) = q h a p
      go h p (err e) = x h e p

-- A line of the log, which never fails.
pub Triple-log {κ} :
    ⦃env : Env⦄ {P : History → Type κ} {E : History → Type κ} (format : String) (args : List Arg)
    → ((h : History) (r : Result (Unit {0}))
        → P h
        → P (record { call = log_format format args; reply = r } ∷ h))
    → Triple P (log format args) (λ _. P) E
unfolding log
Triple-log format args keep =
    Triple-ignoring _ (
      Triple-perform (log_format format args) (λ h a p. keep h (ok a) p)
        (λ h e p. keep h (err e) p))

-- The same ahead of an action.
pub Triple-logged {κ} :
    ⦃env : Env⦄ {A : Type 0} {P : History → Type κ} {Q : A → History → Type κ}
    {E : History → Type κ} (format : String) (args : List Arg) (m : Exec A)
    → ((h : History) (r : Result (Unit {0}))
        → P h
        → P (record { call = log_format format args; reply = r } ∷ h))
    → Triple P m Q E
    → Triple P (log format args >> m) Q E
Triple-logged {P} format args m keep t =
    Triple-bind (λ _. P) _ _ (Triple-log format args keep) (λ _. t)

-- An action keeps `P` if `P` holds behind it, whatever it returns.
abbrev pub Keeps {ℓ κ} : {A : Type ℓ} → (History → Type κ) → Exec A → Type (ℓ ⊔ κ)
Keeps P m = Triple P m (λ _. P) P

-- Nothing is asked.
pub Triple-any {ℓ} :
    {A : Type ℓ} {P : History → Type 0} (m : Exec A) → Triple P m (λ _ _. Unit {0}) (λ _. Unit {0})
Triple-any {A} m = record { at = λ h _. go (m h) }
  where
    go : (o : Result A × History) → After (λ _ _. Unit {0}) (λ _. Unit {0}) o
    go (ok _, _) = tt
    go (err _, _) = tt
