-- ===== src/Push/Tags.antt =====
-- What a tag of the registry names: the manifest or the index that was accepted last under it.
use uki.Base.{Text, ◌≡◌, refl, ◌∷◌}
use uki.Oci.{Ref, Manifest, Index}
use uki.Effects.{
  Reply, Call, Env, Event, Exec, History, Result, ok, err, lift, ◌>>=◌, perform, print, print_line,
  push_blob, push_manifest, push_index, describe_manifest,
}
use uki.Effects.Only.{Only, Only-perform, Only-ignoring, same}

-- The call publishes nothing under a tag as `T` says.
abbrev pub Avoids : (Text → Type 0) → Call → Type 0
Avoids T (push_manifest ref _) = T ref.reference → ⊥
Avoids T (push_index ref _) = T ref.reference → ⊥
Avoids T _ = Unit

pub Avoids-weaken :
    (S T : Text → Type 0) (c : Call) → ((t : Text) → S t → T t) → Avoids T c → Avoids S c
Avoids-weaken S T (push_manifest ref _) f a = λ s. a (f ref.reference s)
Avoids-weaken S T (push_index ref _) f a = λ s. a (f ref.reference s)
Avoids-weaken S T _ f a = tt

-- It publishes nothing under this tag.
abbrev pub Spares : Text → Call → Type 0
Spares tag = Avoids (λ t. t ≡ tag)

-- The call was accepted, and the tag was not touched again.
pub data Latest (tag : Text) (c : Call) : History → Type 0 where
  latest : {h : History} {a : Reply c} → Latest tag c (record { call = c; reply = ok a } ∷ h)
  kept : {h : History} {e : Event} → Spares tag e.call → Latest tag c h → Latest tag c (e ∷ h)

-- The tag of the reference names the manifest.
abbrev pub Tagged : Ref → Manifest → History → Type 0
Tagged ref m = Latest ref.reference (push_manifest ref m)

-- It names the index.
abbrev pub TaggedIndex : Ref → Index → History → Type 0
TaggedIndex ref i = Latest ref.reference (push_index ref i)

-- What follows a result is asked for a value only, and knows that it is the result's.
pub Only-lift_then {ℓ κ} :
    {A : Type ℓ} {B : Type κ} {P : Call → Type 0} (r : Result A) (f : A → Exec B)
    → ((a : A) → r ≡ ok a → Only P (f a))
    → Only P (lift r >>= f)
unfolding lift ◌>>=◌
Only-lift_then (ok a) f g = record { at = (g a refl).at }
Only-lift_then (err e) f g = record { at = λ h. same }

module _ ⦃env : Env⦄ {P : Call → Type 0} where
  pub Only-push_blob :
      (ref : Ref) (t : Text) → P (push_blob ref t) → Only P (perform (push_blob ref t))
  Only-push_blob ref t p = Only-perform (push_blob ref t) p

  pub Only-push_manifest :
      (ref : Ref) (m : Manifest) → P (push_manifest ref m) → Only P (perform (push_manifest ref m))
  Only-push_manifest ref m p = Only-perform (push_manifest ref m) p

  pub Only-push_index :
      (ref : Ref) (i : Index) → P (push_index ref i) → Only P (perform (push_index ref i))
  Only-push_index ref i p = Only-perform (push_index ref i) p

  pub Only-describe_manifest :
      (ref : Ref) → P (describe_manifest ref) → Only P (perform (describe_manifest ref))
  Only-describe_manifest ref p = Only-perform (describe_manifest ref) p

  pub Only-print : (t : Text) → P (print_line t) → Only P (print t)
  unfolding print
  Only-print t p = Only-ignoring _ (Only-perform (print_line t) p)

pub ruleset publishing =
    (Only-push_blob, Only-push_manifest, Only-push_index, Only-describe_manifest, Only-print)
