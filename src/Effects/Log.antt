-- ===== src/Effects/Log.antt =====
-- What a history shows.
use uki.Base.{◌∷◌}
use uki.Effects.{ok, Call, Reply, Event, History}

-- The call was made at some point, and answered with `a`.
pub data Occurs (c : Call) (a : Reply c) : History → Type 0 where
  here : {h : History} → Occurs c a (record { call = c; reply = ok a } ∷ h)
  there : {h : History} {e : Event} → Occurs c a h → Occurs c a (e ∷ h)

-- The same, where the calls ahead of it had left a history with `P`.
pub data OccursWhen (P : History → Type 0) (c : Call) (a : Reply c) : History → Type 0 where
  here_when : {h : History} → P h → OccursWhen P c a (record { call = c; reply = ok a } ∷ h)
  there_when : {h : History} {e : Event} → OccursWhen P c a h → OccursWhen P c a (e ∷ h)
