-- ===== src/Build/Stub/Search.antt =====
-- `defaultStub` looks for a stub.
use uki.Base.{Text, List, [], ◌∷◌}
use uki.FilePath
use uki.Effects.{Env, Exec, succeeds, stat}
use uki.Effects.Grows.{Grows, Grows-pure, Grows-if, Grows-bind, Grows-perform}
use uki.Effects.Asks.{Asks, Asks-bind, Asks-succeeds, Asks-perform}
use uki.Build.Stub.{default_stub_roots, first_stub, default_stub}

module _ ⦃env : Env⦄ where
  Grows-succeeds : {A : Type 0} (m : Exec A) → Grows m → Grows (succeeds m)
  unfolding succeeds
  Grows-succeeds m g = record { at = g.at }

  Grows-first_stub : (stub_name : Text) (roots : List Text) → Grows (first_stub stub_name roots)
  unfolding first_stub
  Grows-first_stub stub_name [] = Grows-pure []
  Grows-first_stub stub_name (root ∷ roots) =
      Grows-bind _ _
        (Grows-succeeds _ (Grows-perform (stat (FilePath.join (root ∷ stub_name ∷ [])))))
        (λ found. Grows-if found _ _ (Grows-pure _) (Grows-first_stub stub_name roots))

  Asks-first_stub :
      (stub_name root : Text) (roots : List Text) → Asks (first_stub stub_name (root ∷ roots))
  unfolding first_stub
  Asks-first_stub stub_name root roots =
      Asks-bind _ _ (Asks-succeeds _ (Asks-perform (stat (FilePath.join (root ∷ stub_name ∷ [])))))
        (λ found. Grows-if found _ _ (Grows-pure _) (Grows-first_stub stub_name roots))

  -- There is a root to look at.
  pub Asks-default_stub : (stub_name : Text) → Asks (default_stub stub_name)
  unfolding default_stub default_stub_roots
  Asks-default_stub stub_name = Asks-first_stub stub_name _ _
