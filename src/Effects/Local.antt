-- ===== src/Effects/Local.antt =====
-- Actions that do not talk to a registry.
use uki.Effects.{Call, Exec, History, push_blob, push_manifest, push_index, describe_manifest}
use uki.Effects.Only.{Only, Adds, same, more}
use uki.Push.Closed.{IsBacked, IsClosed}

-- The call is none of `oci.Client`.
abbrev pub IsLocalCall : Call → Type 0
IsLocalCall (push_blob _ _) = ⊥
IsLocalCall (push_manifest _ _) = ⊥
IsLocalCall (push_index _ _) = ⊥
IsLocalCall (describe_manifest _) = ⊥
IsLocalCall _ = Unit

abbrev pub IsLocal {ℓ} : {A : Type ℓ} → Exec A → Type ℓ
IsLocal m = Only IsLocalCall m

IsBacked-IsLocalCall : (c : Call) (h : History) → IsLocalCall c → IsBacked c h
IsBacked-IsLocalCall (push_blob _ _) h l = absurd l
IsBacked-IsLocalCall (push_manifest _ _) h l = absurd l
IsBacked-IsLocalCall (push_index _ _) h l = absurd l
IsBacked-IsLocalCall (describe_manifest _) h l = absurd l
IsBacked-IsLocalCall _ h l = tt

-- Local calls leave a closed history closed.
pub Adds-IsClosed : {h h' : History} → IsClosed h → Adds IsLocalCall h h' → IsClosed h'
Adds-IsClosed c same = c
Adds-IsClosed c (more {e = e} l a) = (IsBacked-IsLocalCall e.call _ l, Adds-IsClosed c a)
