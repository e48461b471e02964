-- ===== src/Push/Multi/Platforms.antt =====
-- `uniquePlatforms` and the platforms of the flags.
use uki.Base.{
  Text, Bool, true, false, List, [], ◌∷◌, ◌++◌, ◌==◌, ◌||◌, ◌≡◌, ◌≢◌, refl, ◌∙◌, arith, All,
  All-append, Bool-cases, inl, inr, ==→eq, ==-refl,
}
use uki.Base.Order.{insert_sorted, sort_strings}
use uki.Base.Order.Laws.{IsAscending, insert_sorted-IsAscending, All-sort_strings}
use uki.Push.Multi.{contains, collect, collect_all, unique_platforms}
use uki.Push.Multi.PathList.{PathList}
use uki.Push.Multi.PathList.Laws.{IsEntry}
use uki.Strings.Split.{Lacks}

-- Some entry of the list has the platform.
unfoldable pub names : PathList → Text → Bool
names [] x = false
names (p ∷ l) x = p.platform == x || names l x

-- Some entry of some list has the platform.
unfoldable pub mentions : List PathList → Text → Bool
mentions [] x = false
mentions (l ∷ lists) x = names l x || mentions lists x

contains-append :
    (out : List Text) (p x : Text) → contains (out ++ p ∷ []) x ≡ (contains out x || p == x)
unfolding contains
contains-append [] p x = ground arith
contains-append (q ∷ out) p x = ground (arith, contains-append out p x)

contains-known :
    (out : List Text) (q x : Text) (b : Bool)
    → contains out q ≡ true
    → (contains out x || b) ≡ (contains out x || (q == x || b))
contains-known out q x b seen = elim (Bool-cases (q == x)) [
  | inl same ↦ let e : contains out x ≡ true = cc (==→eq q x same, seen) in rw e
  | inr differ ↦ rw differ
]

contains-collect :
    (l : PathList) (out : List Text) (x : Text)
    → contains (collect l out) x ≡ (contains out x || names l x)
unfolding collect names
contains-collect [] out x = ground arith
contains-collect (p ∷ l) out x = elim (Bool-cases (contains out p.platform)) [
  | inl seen ↦ rw seen (contains-collect l out x ∙ contains-known out p.platform x (names l x) seen)
  | inr new ↦
      rw new (contains-collect l (out ++ p.platform ∷ []) x ∙ rw contains-append (ground arith))
]

contains-collect_all :
    (lists : List PathList) (out : List Text) (x : Text)
    → contains (collect_all lists out) x ≡ (contains out x || mentions lists x)
unfolding collect_all mentions
contains-collect_all [] out x = ground arith
contains-collect_all (l ∷ lists) out x =
    contains-collect_all lists (collect l out) x ∙ rw contains-collect (ground arith)

contains-insert_sorted :
    (a : Text) (bs : List Text) (x : Text)
    → contains (insert_sorted a bs) x ≡ (a == x || contains bs x)
unfolding insert_sorted contains
contains-insert_sorted a [] x = refl
contains-insert_sorted a (b ∷ bs) x = ground (arith, contains-insert_sorted a bs x)

contains-sort_strings : (l : List Text) (x : Text) → contains (sort_strings l) x ≡ contains l x
unfolding sort_strings contains
contains-sort_strings [] x = refl
contains-sort_strings (a ∷ l) x = rw (contains-insert_sorted, contains-sort_strings l x)

-- No platform is listed twice.
abbrev IsDistinct : List Text → Type 0
IsDistinct [] = Unit
IsDistinct (a ∷ l) = (contains l a ≡ false) × IsDistinct l

IsDistinct-append :
    (out : List Text) (p : Text)
    → contains out p ≡ false
    → IsDistinct out
    → IsDistinct (out ++ p ∷ [])
unfolding contains
IsDistinct-append [] p h d = (refl, tt)
IsDistinct-append (q ∷ out) p h (dq, d) = (
  rw contains-append (ground (arith, ==→eq q p, ==→eq p q, ==-refl p)),
  IsDistinct-append out p (ground arith) d,
)

collect-IsDistinct : (l : PathList) (out : List Text) → IsDistinct out → IsDistinct (collect l out)
unfolding collect
collect-IsDistinct [] out d = d
collect-IsDistinct (p ∷ l) out d = elim (Bool-cases (contains out p.platform)) [
  | inl seen ↦ rw seen (collect-IsDistinct l out d)
  | inr new ↦ rw new (collect-IsDistinct l _ (IsDistinct-append out p.platform new d))
]

collect_all-IsDistinct :
    (lists : List PathList) (out : List Text) → IsDistinct out → IsDistinct (collect_all lists out)
unfolding collect_all
collect_all-IsDistinct [] out d = d
collect_all-IsDistinct (l ∷ lists) out d =
    collect_all-IsDistinct lists _ (collect-IsDistinct l out d)

absent : (l : List Text) (a : Text) → contains l a ≡ false → All (λ b. a ≢ b) l
unfolding contains
absent [] a h = tt
absent (b ∷ l) a h = (λ e. cc (==-refl b, e, first), absent l a (ground arith))
  where
    first : (b == a) ≡ false
    first = ground arith

sort_strings-IsAscending : (l : List Text) → IsDistinct l → IsAscending (sort_strings l)
unfolding sort_strings
sort_strings-IsAscending [] d = tt
sort_strings-IsAscending (a ∷ l) (da, d) =
    insert_sorted-IsAscending a (sort_strings l) (absent _ a (contains-sort_strings l a ∙ da))
      (sort_strings-IsAscending l d)

-- `uniquePlatforms` returns the platforms in strictly ascending order, so each once, and a text
-- is among them exactly when some entry of some list has it as its platform.
pub unique_platforms_lem :
    (lists : List PathList)
    → IsAscending (unique_platforms lists)
      × ((x : Text) → contains (unique_platforms lists) x ≡ mentions lists x)
unfolding unique_platforms contains
unique_platforms_lem lists = (
  sort_strings-IsAscending _ (collect_all-IsDistinct lists [] tt),
  λ x. contains-sort_strings _ x ∙ contains-collect_all lists [] x,
)

abbrev pub HasNoEquals : Text → Type 0
HasNoEquals = Lacks b'='

collect-HasNoEquals :
    (l : PathList) (out : List Text)
    → All IsEntry l
    → All HasNoEquals out
    → All HasNoEquals (collect l out)
unfolding collect
collect-HasNoEquals [] out h k = k
collect-HasNoEquals (p ∷ l) out (hp, h) k = elim (Bool-cases (contains out p.platform)) [
  | inl seen ↦ rw seen (collect-HasNoEquals l out h k)
  | inr new ↦ rw new (
      collect-HasNoEquals l _ h (All-append HasNoEquals out (p.platform ∷ []) k (hp.no_equals, tt)))
]

collect_all-HasNoEquals :
    (lists : List PathList) (out : List Text)
    → All (All IsEntry) lists
    → All HasNoEquals out
    → All HasNoEquals (collect_all lists out)
unfolding collect_all
collect_all-HasNoEquals [] out h k = k
collect_all-HasNoEquals (l ∷ lists) out (hl, h) k =
    collect_all-HasNoEquals lists _ h (collect-HasNoEquals l out hl k)

-- The platforms of well-formed flags have no `=`.
pub unique_platforms-HasNoEquals :
    (lists : List PathList) → All (All IsEntry) lists → All HasNoEquals (unique_platforms lists)
unfolding unique_platforms
unique_platforms-HasNoEquals lists h =
    All-sort_strings HasNoEquals _ (collect_all-HasNoEquals lists [] h tt)
