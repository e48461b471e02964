-- ===== src/Base/Order/Laws.antt =====
-- `leb` is a linear order, and sorting keeps what is in a list.
use uki.Base.Bytes.{Text}
use uki.Base.Tests.{Bool-cases}
use uki.Base.Lists.{All, length}
use Prim.Native.Nat.{suc}
use uki.Base.Order.{leb, insert_sorted, sort_strings}
use native.Mathlib.Omega.{arith}
use mathlib.Core.Path.{◌≡◌, refl}
use mathlib.Core.Logic.{inl, inr, ◌≢◌}
use mathlib.Core.Bool.{true, false}
use mathlib.Core.List.{List, [], ◌∷◌}

pub leb_refl : (a : Text) → leb a a ≡ true
leb_refl [] = refl
leb_refl (x ∷ a) = ground (arith, leb_refl a)

pub leb-total : (a b : Text) → leb a b ≡ false → leb b a ≡ true
leb-total [] b h = cc
leb-total (x ∷ a) [] h = refl
leb-total (x ∷ a) (y ∷ b) h = ground (arith, leb-total a b)

pub leb-antisym : (a b : Text) → leb a b ≡ true → leb b a ≡ true → a ≡ b
leb-antisym [] [] h k = refl
leb-antisym [] (y ∷ b) h k = cc
leb-antisym (x ∷ a) [] h k = cc
leb-antisym (x ∷ a) (y ∷ b) h k = ground (arith, leb-antisym a b)

pub leb_trans : (a b c : Text) → leb a b ≡ true → leb b c ≡ true → leb a c ≡ true
leb_trans [] b c h k = refl
leb_trans (x ∷ a) [] c h k = cc
leb_trans (x ∷ a) (y ∷ b) [] h k = cc
leb_trans (x ∷ a) (y ∷ b) (z ∷ c) h k = ground (arith, leb_trans a b c)

-- `a` stands strictly before `b`.
pub record IsBefore (a b : Text) : Type 0 where
  pub le : leb a b ≡ true
  pub ne : a ≢ b

-- Every text strictly before the later ones: sorted, and without repetition.
abbrev pub IsAscending : List Text → Type 0
IsAscending [] = Unit
IsAscending (a ∷ l) = All (IsBefore a) l × IsAscending l

pub All-insert_sorted :
    (P : Text → Type 0) (a : Text) (bs : List Text) → P a → All P bs → All P (insert_sorted a bs)
unfolding insert_sorted
All-insert_sorted P a [] p h = (p, tt)
All-insert_sorted P a (b ∷ bs) p (pb, h) = elim (Bool-cases (leb a b)) [
  | inl le ↦ rw le (p, (pb, h))
  | inr gt ↦ rw gt (pb, All-insert_sorted P a bs p h)
]

IsBefore-All :
    (a b : Text) (bs : List Text)
    → leb a b ≡ true
    → All (λ c. a ≢ c) bs
    → All (IsBefore b) bs
    → All (IsBefore a) bs
IsBefore-All a b [] h n k = tt
IsBefore-All a b (c ∷ bs) h (nc, n) (kc, k) =
    (record { le = leb_trans a b c h kc.le; ne = nc }, IsBefore-All a b bs h n k)

pub insert_sorted-IsAscending :
    (a : Text) (bs : List Text)
    → All (λ b. a ≢ b) bs
    → IsAscending bs
    → IsAscending (insert_sorted a bs)
unfolding insert_sorted
insert_sorted-IsAscending a [] n h = (tt, tt)
insert_sorted-IsAscending a (b ∷ bs) (nb, n) (hb, h) = elim (Bool-cases (leb a b)) [
  | inl le ↦ rw le ((record { le = le; ne = nb }, IsBefore-All a b bs le n hb), (hb, h))
  | inr gt ↦ rw gt (
    All-insert_sorted (IsBefore b) a bs (record { le = leb-total a b gt; ne = λ e. nb (cc e) }) hb,
    insert_sorted-IsAscending a bs n h,
  )
]

pub All-sort_strings : (P : Text → Type 0) (l : List Text) → All P l → All P (sort_strings l)
unfolding sort_strings
All-sort_strings P [] h = tt
All-sort_strings P (a ∷ l) (p, h) =
    All-insert_sorted P a (sort_strings l) p (All-sort_strings P l h)

length-insert_sorted : (a : Text) (bs : List Text) → length (insert_sorted a bs) ≡ suc (length bs)
unfolding insert_sorted
length-insert_sorted a [] = refl
length-insert_sorted a (b ∷ bs) = elim (Bool-cases (leb a b)) [
  | inl le ↦ rw le refl
  | inr gt ↦ rw gt (omega (arith, length-insert_sorted a bs))
]

-- Sorting keeps the number of texts.
pub length-sort_strings : (l : List Text) → length (sort_strings l) ≡ length l
unfolding sort_strings
length-sort_strings [] = refl
length-sort_strings (a ∷ l) =
    omega (arith, length-insert_sorted a (sort_strings l), length-sort_strings l)
