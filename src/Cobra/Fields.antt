-- ===== src/Cobra/Fields.antt =====
-- Options whose value is that of the last flag of a name.
use uki.Base.{sym, ◌==◌, if◌then◌else◌, Text, Bool, List, [], ◌∷◌, ◌≡◌, ◌∙◌, ap, All}
use uki.Effects.{ℤ}
use uki.Cobra.{Variable, text_var, bool_var, int_var, value_var, Flag, Command}
use uki.Cobra.Execute.{IsIn, first, later, Assigns, Parsed, unset, given, value_of}

-- A text among the options, with the name of its flag and its default.
pub record Field (O : Type 0) : Type 0 where
  pub name : Text
  pub default : Text
  pub get : O → Text

-- A flag sets the field where it has its name, and keeps it elsewhere.
abbrev pub Keeps : {O : Type 0} → Text → Variable O → Field O → Type 0
Keeps {O} n (text_var _ put) k =
    (v : Text) (o : O) → k.get (put v o) ≡ (if n == k.name then v else k.get o)
Keeps {O} n (bool_var _ put) k =
    (v : Text) (b : Bool) (o : O) → k.get (put b o) ≡ (if n == k.name then v else k.get o)
Keeps {O} n (int_var _ put) k =
    (v : Text) (i : ℤ) (o : O) → k.get (put i o) ≡ (if n == k.name then v else k.get o)
Keeps {O} n (value_var set) k =
    (v : Text) (o : O) → k.get (set v o).1 ≡ (if n == k.name then v else k.get o)

Assigns-Keeps :
    {O : Type 0} (n : Text) (x : Variable O) (k : Field O) (v : Text) (o o' : O)
    → Keeps n x k
    → Assigns x v o o'
    → k.get o' ≡ (if n == k.name then v else k.get o)
Assigns-Keeps n (text_var _ put) k v o o' s a = rw a (s v o)
Assigns-Keeps n (bool_var _ put) k v o o' s (b, a) = rw a (s v b o)
Assigns-Keeps n (int_var _ put) k v o o' s (i, a) = rw a (s v i o)
Assigns-Keeps n (value_var set) k v o o' s a = ap (λ r. k.get r.1) (sym a) ∙ s v o

-- All flags of a command keep a field that they do not name.
abbrev pub IsTracked : (c : Command) → Field c.Options → Type 0
IsTracked c k = All (λ f. Keeps f.name f.variable k) c.flags

IsIn-Keeps :
    {O : Type 0} (k : Field O) (fs : List (Flag O)) {f : Flag O}
    → All (λ g. Keeps g.name g.variable k) fs
    → IsIn f fs
    → Keeps f.name f.variable k
IsIn-Keeps k [] _ i = elim i [ ]
IsIn-Keeps k (f ∷ fs) (a, b) first = a
IsIn-Keeps k (f ∷ fs) (a, b) (later i) = IsIn-Keeps k fs b i

-- A field that is tracked holds the value that was given last for its flag, or its default.
Parsed-value_of :
    (c : Command) (k : Field c.Options) {l : List (Text × Text)} {o : c.Options}
    → IsTracked c k
    → k.get c.initial ≡ k.default
    → Parsed c l o
    → k.get o ≡ value_of k.name k.default l
unfolding value_of
Parsed-value_of c k t d unset = d
Parsed-value_of c k t d (given {l = l} {o = o} {o' = o'} f v p i a) =
    rw (← Parsed-value_of c k t d p)
      (Assigns-Keeps f.name f.variable k v o o' (IsIn-Keeps k c.flags t i) a)

-- Each field holds the value that was given last for its flag, or its default.
abbrev pub Holds : {O : Type 0} → List (Field O) → List (Text × Text) → O → Type 0
Holds ks l o = All (λ k. k.get o ≡ value_of k.name k.default l) ks

pub Parsed-Holds :
    (c : Command) (ks : List (Field c.Options)) {l : List (Text × Text)} {o : c.Options}
    → All (IsTracked c) ks
    → All (λ k. k.get c.initial ≡ k.default) ks
    → Parsed c l o
    → Holds ks l o
Parsed-Holds c [] _ _ p = tt
Parsed-Holds c (k ∷ ks) (t, ts) (d, ds) p = (Parsed-value_of c k t d p, Parsed-Holds c ks ts ds p)
