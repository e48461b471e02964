-- ===== src/Build/Stub/Choice.antt =====
-- Which stub `defaultStub` finds.
use uki.Base.{Text, Bool, true, false, List, [], ◌∷◌, ◌≡◌, refl, ◌⊎◌, inl, inr, if◌then◌else◌}
use uki.FilePath
use uki.Effects.{
  Error, Result, ok, err, Exec, Env, Event, History, Call, pure, succeeds, perform, stat,
}
use uki.Effects.Hoare.{Triple, After, Triple-bind, Triple-pure, Triple-weaken}
use uki.Effects.Grows.{Lasts}
use uki.Effects.Log.{Occurs, here, there}
use uki.Build.Stub.{default_stub_roots, first_stub, default_stub}

-- The call was answered with an error.
pub data Refused (c : Call) : History → Type 0 where
  latest : {e : Error} {h : History} → Refused c (record { call = c; reply = err e } ∷ h)
  earlier : {e : Event} {h : History} → Refused c h → Refused c (e ∷ h)

-- The path of the stub below a root.
abbrev pub stub_path : Text → Text → Text
stub_path stub_name root = FilePath.join (root ∷ stub_name ∷ [])

-- `p` is the stub below the first root where `os.Stat` found one, or empty if it found none.
pub Chosen : Text → List Text → Text → History → Type 0
Chosen stub_name [] p h = p ≡ []
Chosen stub_name (root ∷ roots) p h =
    ((p ≡ stub_path stub_name root)
      × ((is_dir : Bool) × Occurs (stat (stub_path stub_name root)) is_dir h))
    ⊎ (Refused (stat (stub_path stub_name root)) h × Chosen stub_name roots p h)

pub Chosen-later :
    (stub_name : Text) (roots : List Text) (p : Text) (h : History) (e : Event)
    → Chosen stub_name roots p h
    → Chosen stub_name roots p (e ∷ h)
unfolding Chosen
Chosen-later n [] p h e c = c
Chosen-later n (root ∷ roots) p h e (inl (q, (d, o))) = inl (q, (d, there o))
Chosen-later n (root ∷ roots) p h e (inr (r, c)) = inr (earlier r, Chosen-later n roots p h e c)

-- What a test of a path has shown.
abbrev Shown : Bool → Text → History → Type 0
Shown true p h = (is_dir : Bool) × Occurs (stat p) is_dir h
Shown false p h = Refused (stat p) h

module _ ⦃env : Env⦄ where
  succeeds-Shown :
      (F : History → Type 0) (p : Text)
      → Lasts F
      → Triple F (succeeds (perform (stat p))) (λ found h. F h × Shown found p h) (λ _. ⊥)
  unfolding succeeds perform
  succeeds-Shown F p lasts = record { at = λ h f. go h f (env.answer h (stat p)) }
    where
      go :
          (h : History)
          → F h
          → (r : Result Bool)
          → After
              (λ found h. F h × Shown found p h)
              (λ _. ⊥)
              (ok (elim r [ ok _ ↦ true | err _ ↦ false ]), record { call = stat p; reply = r } ∷ h)
      go h f (ok b) = (lasts.later h _ f, (b, here))
      go h f (err e) = (lasts.later h _ f, latest)

  -- One round of the loop, from the one for the other roots.
  choose :
      (F : History → Type 0) (stub_name root : Text) (roots : List Text) (rest : Exec Text)
      → Triple
          (λ h. F h × Refused (stat (stub_path stub_name root)) h)
          rest
          (λ p h. (F h × Refused (stat (stub_path stub_name root)) h) × Chosen stub_name roots p h)
          (λ _. ⊥)
      → (found : Bool)
      → Triple
          (λ h. F h × Shown found (stub_path stub_name root) h)
          (if found then pure (stub_path stub_name root) else rest)
          (λ p h. F h × Chosen stub_name (root ∷ roots) p h)
          (λ _. ⊥)
  unfolding Chosen
  choose F stub_name root roots rest t true = Triple-pure _ (λ h (f, o). (f, inl (refl, o)))
  choose F stub_name root roots rest t false =
      Triple-weaken _ t (λ h u. u) (λ p h ((f, x), c). (f, inr (x, c))) (λ h u. u)

  first_stub-Chosen :
      (F : History → Type 0) (stub_name : Text) (roots : List Text)
      → Lasts F
      → Triple F (first_stub stub_name roots) (λ p h. F h × Chosen stub_name roots p h) (λ _. ⊥)
  unfolding first_stub Chosen
  first_stub-Chosen F stub_name [] lasts = Triple-pure [] (λ h f. (f, refl))
  first_stub-Chosen F stub_name (root ∷ roots) lasts =
      let q = stub_path stub_name root in
      Triple-bind (λ found h. F h × Shown found q h) _ _ (succeeds-Shown F q lasts)
        (choose F stub_name root roots (first_stub stub_name roots) (
          first_stub-Chosen (λ h. F h × Refused (stat q) h) stub_name roots
            (record { later = λ h e (f, x). (lasts.later h e f, earlier x) })))

-- `defaultStub` returns the path of the stub below the first root of `DefaultStubRoots` where
-- `os.Stat` found it, after it found none below the roots before, or the empty text if it found
-- none at all. It never returns an error.
pub default_stub-Chosen :
    ⦃env : Env⦄ (stub_name : Text) (h : History)
    → After (λ p h'. Chosen stub_name default_stub_roots p h') (λ _. ⊥) (default_stub stub_name h)
unfolding default_stub
default_stub-Chosen stub_name h =
    (Triple-weaken _
        (first_stub-Chosen (λ _. Unit {0}) stub_name default_stub_roots
          (record { later = λ h e u. tt }))
        (λ h u. u) (λ p h (u, c). c) (λ h u. u)).at
      h tt
