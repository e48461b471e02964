-- ===== src/Effects/Resources.antt =====
-- What the program holds: open files, and temporary directories.
pub mod Quiet
use uki.Base.{
  Text, Bool, true, false, String, List, [], ◌∷◌, ◌==◌, ◌≡◌, refl, ◌∙◌, ap, arith, ==-refl,
  if◌then◌else◌,
}
use uki.Strings.{byte_eq}
use uki.Effects.{
  ◌>>◌, Arg, log, log_format, Error, Result, ok, err, Event, History, Exec, Env, Call, Reply,
  Handle, pure, fail, fail_if, lift, wrapping, replacing, succeeds, ignoring, deferring, continue,
  ◌>>=◌, perform, create, open_read, open_append, mkdir_temp, close, remove_all, with_file,
  with_temp,
}

pub data Resource : Type 0 where
  file : Handle → Resource
  temp : Text → Resource

-- `close f` ends the latest file `f`.
abbrev close_file : Handle → List Resource → List Resource
close_file f [] = []
close_file f (file g ∷ l) = if byte_eq g f then l else file g ∷ close_file f l
close_file f (temp d ∷ l) = temp d ∷ close_file f l

abbrev remove_temp : Text → List Resource → List Resource
remove_temp d [] = []
remove_temp d (file g ∷ l) = file g ∷ remove_temp d l
remove_temp d (temp e ∷ l) = if e == d then l else temp e ∷ remove_temp d l

abbrev pub note : (c : Call) → Result (Reply c) → List Resource → List Resource
note (create _) (ok f) l = file f ∷ l
note (open_read _) (ok f) l = file f ∷ l
note (open_append _) (ok f) l = file f ∷ l
note (mkdir_temp _) (ok d) l = temp d ∷ l
note (close f) _ l = close_file f l
note (remove_all d) _ l = remove_temp d l
note _ _ l = l

-- The files and temporary directories that are held, the latest first. A release that is
-- refused counts as one: the program has done its part.
abbrev pub held : History → List Resource
held [] = []
held (e ∷ h) = note e.call e.reply (held h)

-- `m` ends with what it began with, whatever it returns.
pub record IsBalanced {ℓ} {A : Type ℓ} (m : Exec A) : Type ℓ where
  pub at : (h : History) → held (m h).1 ≡ held h

-- A call that neither acquires nor releases.
abbrev pub IsQuiet : Call → Type 0
IsQuiet (create _) = ⊥
IsQuiet (open_read _) = ⊥
IsQuiet (open_append _) = ⊥
IsQuiet (mkdir_temp _) = ⊥
IsQuiet (close _) = ⊥
IsQuiet (remove_all _) = ⊥
IsQuiet _ = Unit

note-IsQuiet : (c : Call) (r : Result (Reply c)) (l : List Resource) → IsQuiet c → note c r l ≡ l
note-IsQuiet (create _) r l h = absurd h
note-IsQuiet (open_read _) r l h = absurd h
note-IsQuiet (open_append _) r l h = absurd h
note-IsQuiet (mkdir_temp _) r l h = absurd h
note-IsQuiet (close _) r l h = absurd h
note-IsQuiet (remove_all _) r l h = absurd h
note-IsQuiet _ r l h = refl

module _ {ℓ} {A : Type ℓ} where
  pub IsBalanced-pure : (a : A) → IsBalanced (pure a)
  unfolding pure
  IsBalanced-pure a = record { at = λ h. refl }

  pub IsBalanced-fail : (e : Error) → IsBalanced (fail {A = A} e)
  unfolding fail
  IsBalanced-fail e = record { at = λ h. refl }

  pub IsBalanced-lift : (r : Result A) → IsBalanced (lift r)
  unfolding lift
  IsBalanced-lift r = record { at = λ h. refl }

  pub IsBalanced-wrapping :
      (format : String) (args : List Text) (m : Exec A)
      → IsBalanced m
      → IsBalanced (wrapping format args m)
  unfolding wrapping
  IsBalanced-wrapping format args m b = record { at = b.at }

  pub IsBalanced-replacing : (e : Error) (m : Exec A) → IsBalanced m → IsBalanced (replacing e m)
  unfolding replacing
  IsBalanced-replacing e m b = record { at = b.at }

  pub IsBalanced-succeeds : (m : Exec A) → IsBalanced m → IsBalanced (succeeds m)
  unfolding succeeds
  IsBalanced-succeeds m b = record { at = b.at }

  pub IsBalanced-if :
      (b : Bool) (m n : Exec A) → IsBalanced m → IsBalanced n → IsBalanced (if b then m else n)
  IsBalanced-if true m n bm bn = bm
  IsBalanced-if false m n bm bn = bn

  pub IsBalanced-ignoring : (m : Exec A) → IsBalanced m → IsBalanced (ignoring m)
  unfolding ignoring
  IsBalanced-ignoring m b = record { at = b.at }

  pub IsBalanced-deferring :
      (d : Exec (Unit {0})) (m : Exec A) → IsBalanced d → IsBalanced m → IsBalanced (deferring d m)
  unfolding deferring
  IsBalanced-deferring d m bd bm = record { at = λ h. bd.at (m h).1 ∙ bm.at h }

pub IsBalanced-fail_if : (b : Bool) (e : Error) → IsBalanced (fail_if b e)
unfolding fail_if
IsBalanced-fail_if b e = IsBalanced-if b _ _ (IsBalanced-fail e) (IsBalanced-pure tt)

module _ {ℓ κ} {A : Type ℓ} {B : Type κ} where
  IsBalanced-continue :
      (f : A → Exec B) (r : Result A) (h : History)
      → ((a : A) → IsBalanced (f a))
      → held (continue r f h).1 ≡ held h
  IsBalanced-continue f (ok a) h b = (b a).at h
  IsBalanced-continue f (err e) h b = refl

  pub IsBalanced-bind :
      (m : Exec A) (f : A → Exec B)
      → IsBalanced m
      → ((a : A) → IsBalanced (f a))
      → IsBalanced (m >>= f)
  unfolding ◌>>=◌
  IsBalanced-bind m f bm bf = record {
    at = λ h. IsBalanced-continue f (m h).0 (m h).1 bf ∙ bm.at h;
  }

module _ ⦃env : Env⦄ where
  pub IsBalanced-perform : (c : Call) → IsQuiet c → IsBalanced (perform c)
  unfolding perform
  IsBalanced-perform c q = record { at = λ h. note-IsQuiet c (env.answer h c) (held h) q }

  close_lem :
      (f : Handle) (h : History) (l : List Resource)
      → held h ≡ file f ∷ l
      → held (ignoring (perform (close f)) h).1 ≡ l
  unfolding ignoring perform
  close_lem f h l e = rw e (ground arith)

  remove_all_lem :
      (d : Text) (h : History) (l : List Resource)
      → held h ≡ temp d ∷ l
      → held (ignoring (perform (remove_all d)) h).1 ≡ l
  unfolding ignoring perform
  remove_all_lem d h l e = rw (e, ==-refl d)

  -- An acquisition with its release deferred.
  bracket {ℓ} :
      {A : Type ℓ} (c : Call) (res : Reply c → Resource) (d : Reply c → Exec (Unit {0}))
      (m : Reply c → Exec A)
      → ((a : Reply c) (l : List Resource) → note c (ok a) l ≡ res a ∷ l)
      → ((e : Error) (l : List Resource) → note c (err e) l ≡ l)
      → ((a : Reply c) (h : History) (l : List Resource) → held h ≡ res a ∷ l → held (d a h).1 ≡ l)
      → ((a : Reply c) → IsBalanced (m a))
      → IsBalanced (perform c >>= λ a. deferring (d a) (m a))
  unfolding ◌>>=◌ perform deferring
  bracket c res d m acquired failed released b = record { at = λ h. go h (env.answer h c) }
    where
      go :
          (h : History) (r : Result (Reply c))
          → held (continue r (λ a. deferring (d a) (m a)) (record { call = c; reply = r } ∷ h)).1
            ≡ held h
      go h (ok a) = released a _ (held h) ((b a).at _ ∙ acquired a (held h))
      go h (err e) = failed e (held h)

  module _ {ℓ} {A : Type ℓ} (p : Text) (m : Handle → Exec A)
      (b : (f : Handle) → IsBalanced (m f)) where
    pub IsBalanced-create : IsBalanced (with_file (perform (create p)) m)
    unfolding with_file
    IsBalanced-create =
        bracket (create p) file (λ f. ignoring (perform (close f))) m (λ f l. refl) (λ e l. refl)
          (λ f h l e. close_lem f h l e) b

    pub IsBalanced-open_read : IsBalanced (with_file (perform (open_read p)) m)
    unfolding with_file
    IsBalanced-open_read =
        bracket (open_read p) file (λ f. ignoring (perform (close f))) m (λ f l. refl) (λ e l. refl)
          (λ f h l e. close_lem f h l e) b

    pub IsBalanced-open_append : IsBalanced (with_file (perform (open_append p)) m)
    unfolding with_file
    IsBalanced-open_append =
        bracket (open_append p) file (λ f. ignoring (perform (close f))) m (λ f l. refl)
          (λ e l. refl) (λ f h l e. close_lem f h l e) b

  pub IsBalanced-with_temp {ℓ} :
      {A : Type ℓ} (p : Text) (m : Text → Exec A)
      → ((d : Text) → IsBalanced (m d))
      → IsBalanced (with_temp p m)
  unfolding with_temp
  IsBalanced-with_temp p m b =
      bracket (mkdir_temp p) temp (λ d. ignoring (perform (remove_all d))) m (λ d l. refl)
        (λ e l. refl) (λ d h l e. remove_all_lem d h l e) b

  -- The same, with a line of the log between the two.
  pub IsBalanced-with_temp_logged {ℓ} :
      {A : Type ℓ} (p : Text) (format : String) (args : Text → List Arg) (m : Text → Exec A)
      → ((d : Text) → IsBalanced (m d))
      → IsBalanced (
          perform (mkdir_temp p) >>= λ d.
          log format (args d) >> deferring (ignoring (perform (remove_all d))) (m d))
  unfolding ◌>>=◌ perform deferring log ignoring
  IsBalanced-with_temp_logged p format args m b = record {
    at = λ h. go h (env.answer h (mkdir_temp p));
  }
    where
      go :
          (h : History) (r : Result Text)
          → held
              (continue r
                (λ d. log format (args d) >> deferring (ignoring (perform (remove_all d))) (m d))
                (record { call = mkdir_temp p; reply = r } ∷ h)).1
            ≡ held h
      go h (ok d) =
          let made : History = record { call = mkdir_temp p; reply = ok d } ∷ h in
          let line = log_format format (args d) in
          let logged : History = record { call = line; reply = env.answer made line } ∷ made in
          remove_all_lem d (m d logged).1 (held h) ((b d).at logged)
      go h (err e) = refl

pub ruleset balance_rules = (
  IsBalanced-create, IsBalanced-open_read, IsBalanced-open_append, IsBalanced-with_temp,
  IsBalanced-pure, IsBalanced-fail, IsBalanced-lift, IsBalanced-wrapping, IsBalanced-replacing,
  IsBalanced-succeeds, IsBalanced-if, IsBalanced-ignoring, IsBalanced-deferring, IsBalanced-fail_if,
  IsBalanced-bind,
)
