-- ===== src/Push/Multi/PathList/Laws.antt =====
-- What `Set` accepts, and what `Replace`, `GetSlice` and `pathFor` make of it.
use uki.Base.{Text, List, [], ◌∷◌, ◌++◌, ◌≡◌, ◌≢◌, ◌⊎◌, inl, inr, refl, arith, ◌∙◌, append_assoc}
use uki.Base.{append-nil, All, All-append, is_empty, is_set, is_empty-ne, ◌||◌, ◌==◌}
use uki.Base.{if◌then◌else◌}
use uki.Strings.Split.{Lacks, IsCut, split_two-cut, split_two_of_Lacks, split_two-cases}
use uki.Effects.{ok, err}
use uki.Push.Multi.PathList.{
  PlatformPath, PathList, malformed, set, set_all, replace, get_slice, path_for,
}

-- An entry as `set` makes them.
pub record IsEntry (p : PlatformPath) : Type 0 where
  pub no_equals : Lacks b'=' p.platform
  pub platform_set : p.platform ≢ []
  pub path_set : p.path ≢ []

set-cut :
    (v a b : Text) (l : PathList)
    → IsCut v b'=' a b
    → set v l ≡ (
        if is_empty a || is_empty b
        then (err (malformed v), l)
        else (ok tt, l ++ record { platform = a; path = b } ∷ []))
unfolding set
set-cut v a b l cut = rw (split_two-cut v b'=' a b cut)

set_of_Lacks : (v : Text) (l : PathList) → Lacks b'=' v → set v l ≡ (err (malformed v), l)
unfolding set
set_of_Lacks v l lacks = rw (split_two_of_Lacks v b'=' lacks)

-- An entry is spelled `platform=path`, and `Set` reads it back.
pub set-entry :
    (p : PlatformPath) (l : PathList)
    → IsEntry p
    → set (p.platform ++ b'=' ∷ p.path) l ≡ (ok tt, l ++ p ∷ [])
set-entry p l h =
    rw (set-cut _ p.platform p.path l (record { spelled = refl; first = h.no_equals }))
      (ground (arith, is_empty-ne p.platform h.platform_set, is_empty-ne p.path h.path_set))

set_all-cons :
    (v : Text) (vals : List Text) (l : PathList) {l' : PathList}
    → set v l ≡ (ok tt, l')
    → set_all (v ∷ vals) l ≡ set_all vals l'
unfolding set_all
set_all-cons v vals l h = ground arith

set_all-get_slice :
    (l done : PathList) → All IsEntry l → set_all (get_slice l) done ≡ (ok tt, done ++ l)
unfolding set_all get_slice
set_all-get_slice [] done _ = rw append-nil
set_all-get_slice (p ∷ l) done (hp, hl) =
    set_all-cons _ (get_slice l) done (set-entry p done hp)
    ∙ (set_all-get_slice l (done ++ p ∷ []) hl ∙ rw append_assoc)

set_all-snoc :
    (vals : List Text) (v : Text) (l : PathList) {l' : PathList}
    → set_all vals l ≡ (ok tt, l')
    → set_all (vals ++ v ∷ []) l ≡ set v l'
unfolding set_all
set_all-snoc [] v l h = ground arith
set_all-snoc (u ∷ vals) v l {l' = l'} h = ground (arith, set_all-snoc vals v (set u l).1 {l' = l'})

-- One value more.
pub replace-snoc :
    (vals : List Text) (v : Text) (l : PathList) {l' : PathList}
    → replace vals l ≡ (ok tt, l')
    → replace (vals ++ v ∷ []) l ≡ set v l'
unfolding replace
replace-snoc vals v l h = set_all-snoc vals v [] h

-- A list of well-formed entries is rebuilt by `Replace` from what `GetSlice` gives, whatever the
-- list held before.
pub replace-get_slice : (l old : PathList) → All IsEntry l → replace (get_slice l) old ≡ (ok tt, l)
unfolding replace
replace-get_slice l old h = set_all-get_slice l [] h

-- `v` is spelled as an entry.
pub record Spells (v : Text) (p : PlatformPath) : Type 0 where
  pub spelled : v ≡ p.platform ++ b'=' ∷ p.path
  pub is_entry : IsEntry p

set-cut_cases :
    (v a b : Text) (l : PathList)
    → IsCut v b'=' a b
    → ((p : PlatformPath) × Spells v p × (set v l ≡ (ok tt, l ++ p ∷ [])))
      ⊎ (set v l ≡ (err (malformed v), l))
set-cut_cases v [] b l cut = inr (set-cut v [] b l cut)
set-cut_cases v (c ∷ a) [] l cut = inr (set-cut v (c ∷ a) [] l cut)
set-cut_cases v (c ∷ a) (d ∷ b) l cut = inl (
  record { platform = c ∷ a; path = d ∷ b },
  record {
    spelled = cut.spelled;
    is_entry = record { no_equals = cut.first; platform_set = λ e. cc; path_set = λ e. cc };
  },
  set-cut v (c ∷ a) (d ∷ b) l cut,
)

-- `Set` either adds, at the end, one entry that is spelled as the value, has no `=` in its
-- platform and no empty part, or refuses the value and leaves the list as it was.
pub set-cases :
    (v : Text) (l : PathList)
    → ((p : PlatformPath) × Spells v p × (set v l ≡ (ok tt, l ++ p ∷ [])))
      ⊎ (set v l ≡ (err (malformed v), l))
set-cases v l = elim (split_two-cases v b'=') [
  | inl (a, b, cut) ↦ set-cut_cases v a b l cut
  | inr lacks ↦ inr (set_of_Lacks v l lacks)
]

-- Any sequence of values keeps every entry of the list well formed.
set-IsEntry : (v : Text) (l : PathList) → All IsEntry l → All IsEntry (set v l).1
set-IsEntry v l h = elim (set-cases v l) [
  | inl (p, s, e) ↦ rw e (All-append IsEntry l (p ∷ []) h (s.is_entry, tt))
  | inr e ↦ rw e h
]

set_all-IsEntry : (vals : List Text) (l : PathList) → All IsEntry l → All IsEntry (set_all vals l).1
unfolding set_all
set_all-IsEntry [] l h = h
set_all-IsEntry (v ∷ vals) l h =
    let kept = set-IsEntry v l h in ground (arith, kept, set_all-IsEntry vals (set v l).1 kept)

-- Whatever the values and whatever the list held, `Replace` leaves well-formed entries only.
pub replace-IsEntry : (vals : List Text) (l : PathList) → All IsEntry (replace vals l).1
unfolding replace
replace-IsEntry vals l = set_all-IsEntry vals [] tt

-- In a list of well-formed entries, the first path that a platform was given is the one that
-- `pathFor` returns: an entry that is appended is found only for a platform that had none.
pub path_for-append :
    (l : PathList) (p : PlatformPath) (platform : Text)
    → All IsEntry l
    → path_for (l ++ p ∷ []) platform ≡ (
        if is_set (path_for l platform)
        then path_for l platform
        else if p.platform == platform
        then p.path
        else [])
unfolding path_for
path_for-append [] p platform _ = refl
path_for-append (q ∷ l) p platform (hq, hl) =
    ground (arith, path_for-append l p platform hl, is_empty-ne q.path hq.path_set)
