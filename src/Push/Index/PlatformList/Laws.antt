-- ===== src/Push/Index/PlatformList/Laws.antt =====
-- Values of `--platform` and the list that they make are one another's text.
use mathlib.Core.List.{map-append}
use uki.Base.{Text, List, [], ◌∷◌, ◌++◌, ◌≡◌, refl, arith, inl, inr, sym, ap, ◌∙◌, append-nil}
use uki.Base.{append_assoc, length, length-append, ◌+◌, ◌≤◌}
use uki.Strings.Split.{Lacks, IsCut, split_two-cut, split_two_of_Lacks, split_two-cases}
use uki.Strings.{split_two}
use uki.Effects.{Error, ok, err, errorf}
use uki.Push.Index.PlatformList.{
  PlatformSpec, PlatformList, set_parts, set, set_all, replace, get_slice,
}

set-cut :
    (v a b : Text) (l : PlatformList)
    → IsCut v b'=' a b
    → set v l ≡ (ok tt, l ++ record { platform = a; ref = b } ∷ [])
unfolding set
set-cut v a b l cut = rw (split_two-cut v b'=' a b cut)

set_of_Lacks :
    (v : Text) (l : PlatformList)
    → Lacks b'=' v
    → set v l ≡ (err (errorf "expected <os/arch>=<ref>, got %q" (v ∷ [])), l)
unfolding set
set_of_Lacks v l lacks = rw (split_two_of_Lacks v b'=' lacks)

-- A value that is refused leaves the list as it was.
pub set_refused : (v : Text) (l : PlatformList) {e : Error} → (set v l).0 ≡ err e → (set v l).1 ≡ l
set_refused v l h = elim (split_two-cases v b'=') [
  | inl (a, b, cut) ↦ cc (set-cut v a b l cut)
  | inr lacks ↦ cc (set_of_Lacks v l lacks)
]

-- What `set` adds reads back as the value that it was given.
pub get_slice-set :
    (v : Text) (l : PlatformList)
    → (set v l).0 ≡ ok tt
    → get_slice (set v l).1 ≡ get_slice l ++ v ∷ []
unfolding get_slice
get_slice-set v l h = elim (split_two-cases v b'=') [
  | inl (a, b, cut) ↦ rw (set-cut v a b l cut, map-append, cut.spelled)
  | inr lacks ↦ cc (set_of_Lacks v l lacks)
]

set_all-cons :
    (v : Text) (vals : List Text) (l : PlatformList)
    → (set_all (v ∷ vals) l).0 ≡ ok tt
    → ((set v l).0 ≡ ok tt) × (set_all (v ∷ vals) l ≡ set_all vals (set v l).1)
unfolding set_all
set_all-cons v vals l h = ground arith

get_slice-set_all :
    (vals : List Text) (l : PlatformList)
    → (set_all vals l).0 ≡ ok tt
    → get_slice (set_all vals l).1 ≡ get_slice l ++ vals
get_slice-set_all [] l h = unfold set_all in sym (append-nil _)
get_slice-set_all (v ∷ vals) l h =
    let (accepted, step) = set_all-cons v vals l h in
    rw step (
      get_slice-set_all vals (set v l).1 (ap (λ r. r.0) (sym step) ∙ h)
      ∙ rw (get_slice-set v l accepted) (append_assoc (get_slice l) (v ∷ []) vals))

-- After a `Replace` that returns no error, `GetSlice` gives back the values, in their order and
-- byte for byte.
pub get_slice-replace :
    (vals : List Text) (l : PlatformList)
    → (replace vals l).0 ≡ ok tt
    → get_slice (replace vals l).1 ≡ vals
unfolding replace get_slice
get_slice-replace vals l h = get_slice-set_all vals [] h

-- An entry whose platform has no `=`, as `set` makes them.
abbrev pub IsEntry : PlatformSpec → Type 0
IsEntry p = Lacks b'=' p.platform

pub set-entry :
    (p : PlatformSpec) (l : PlatformList)
    → IsEntry p
    → set (p.platform ++ b'=' ∷ p.ref) l ≡ (ok tt, l ++ p ∷ [])
set-entry p l h = set-cut _ p.platform p.ref l (record { spelled = refl; first = h })

length-set_parts :
    (v : Text) (parts : List Text) (l : PlatformList)
    → length (set_parts v parts l).1 ≤ length l + 1
unfolding set_parts
length-set_parts v [] l = omega arith
length-set_parts v (p ∷ []) l = omega arith
length-set_parts v (p ∷ r ∷ []) l =
    omega (arith, length-append l (record { platform = p; ref = r } ∷ []))
length-set_parts v (p ∷ r ∷ q ∷ parts) l = omega arith

-- A value adds one entry at most.
pub length-set : (v : Text) (l : PlatformList) → length (set v l).1 ≤ length l + 1
unfolding set
length-set v l = length-set_parts v (split_two v b'=') l
