-- ===== src/Effects/Only/Growth.antt =====
-- An action that makes only calls of some kind only adds to the history.
use uki.Base.{◌∷◌}
use uki.Effects.{Call, Event, Exec, History, Result, ok, err}
use uki.Effects.Hoare.{Triple, After}
use uki.Effects.Grows as Growth
use uki.Effects.Grows.{Grows, IsSuffix}
use uki.Effects.Only.{Only, Adds, same, more}

Adds-IsSuffix : {P : Call → Type 0} {h h' : History} → Adds P h h' → IsSuffix h h'
Adds-IsSuffix same = Growth.same
Adds-IsSuffix (more p a) = Growth.more (Adds-IsSuffix a)

pub Only-Grows {ℓ} : {A : Type ℓ} {P : Call → Type 0} (m : Exec A) → Only P m → Grows m
Only-Grows m o = record { at = λ h. Adds-IsSuffix (o.at h) }

-- Such an action keeps what its calls keep.
pub Triple-only {κ} :
    {A : Type 0} (P : Call → Type 0) (F : History → Type κ) (m : Exec A)
    → ((h : History) (e : Event) → P e.call → F h → F (e ∷ h))
    → Only P m
    → Triple F m (λ _. F) F
Triple-only {A} P F m step o = record { at = λ h f. either (m h) (kept (o.at h) f) }
  where
    kept : {h h' : History} → Adds P h h' → F h → F h'
    kept same f = f
    kept (more q a) f = step _ _ q (kept a f)

    either : (x : Result A × History) → F x.1 → After (λ _. F) F x
    either (ok a, h) f = f
    either (err e, h) f = f
