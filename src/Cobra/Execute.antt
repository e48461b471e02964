-- ===== src/Cobra/Execute.antt =====
-- What cobra does with a command line, as far as the program relies on it: it refuses it, prints a
-- help text, or calls the `RunE` of one command of the tree with options that were set through the
-- flags of this command.
use uki.Base.{◌++◌, ◌==◌, if◌then◌else◌, Text, List, [], ◌∷◌, ◌≡◌, String, All}
use uki.Effects.{Exec, Error, Result, ok, err, History}
use uki.Cobra.{
  Variable, text_var, bool_var, int_var, value_var, Flag, Args, Command, Node, leaf, group, Nodes,
  add, name_of,
}
use uki.Effects.{ℤ}
use uki.Base.{Bool}

pub data IsIn {ℓ} {A : Type ℓ} (a : A) : List A → Type ℓ where
  first : {l : List A} → IsIn a (a ∷ l)
  later : {b : A} {l : List A} → IsIn a l → IsIn a (b ∷ l)

pub data IsChild (n : Node) : Nodes → Type 1 where
  head : {ns : Nodes} → IsChild n (add n ns)
  tail : {m : Node} {ns : Nodes} → IsChild n ns → IsChild n (add m ns)

-- The path of names leads from a node to a command.
pub data Reaches : Node → List Text → Command → Type 1 where
  arrived : {c : Command} → Reaches (leaf c) [] c
  down :
      {use_line : Text} {short long : String} {silent : Bool} {ns : Nodes} {n : Node}
      {path : List Text} {c : Command}
      → IsChild n ns
      → Reaches n path c
      → Reaches (group use_line short long silent ns) (name_of n ∷ path) c

-- The options after the variable was set from the text `v`. How a text is read as a number or as
-- a truth value is left open.
abbrev pub Assigns : {O : Type 0} → Variable O → Text → O → O → Type 0
Assigns (text_var _ put) v o o' = o' ≡ put v o
Assigns (bool_var _ put) v o o' = (b : Bool) × (o' ≡ put b o)
Assigns (int_var _ put) v o o' = (n : ℤ) × (o' ≡ put n o)
Assigns (value_var set) v o o' = set v o ≡ (ok tt, o')

-- The options after flags were given, the latest first, each with its value.
pub data Parsed (c : Command) : List (Text × Text) → c.Options → Type 0 where
  unset : Parsed c [] c.initial
  given :
      {l : List (Text × Text)} {o o' : c.Options} (f : Flag c.Options) (v : Text)
      → Parsed c l o
      → IsIn f c.flags
      → Assigns f.variable v o o'
      → Parsed c ((f.name, v) ∷ l) o'

-- The value that was given last for a name, or the default.
unfoldable pub value_of : Text → Text → List (Text × Text) → Text
value_of name default [] = default
value_of name default ((n, v) ∷ l) = if n == name then v else value_of name default l

-- All values that were given for a name, in their order.
unfoldable pub values_of : Text → List (Text × Text) → List Text
values_of name [] = []
values_of name ((n, v) ∷ l) =
    let rest = values_of name l in if n == name then rest ++ v ∷ [] else rest

-- A flag with the name was given.
abbrev pub IsGiven : List (Text × Text) → Text → Type 0
IsGiven l name = (v : Text) × IsIn (name, v) l

-- What a run of cobra on the tree comes to, from the history `h`.
pub data Outcome (root : Node) (h : History) (o : Result (Unit {0}) × History) : Type 1 where
  refused : (e : Error) → o ≡ (err e, h) → Outcome root h o
  helped : o ≡ (ok tt, h) → Outcome root h o
  ran :
      (path : List Text) (c : Command) (l : List (Text × Text)) (opts : c.Options)
      (args : Args c.arity)
      → Reaches root path c
      → Parsed c l opts
      → All (IsGiven l) c.required
      → o ≡ c.run opts args h
      → Outcome root h o

-- `Execute` of a command tree, on a command line, with what the program relies on. The messages
-- that cobra prints are its own, and not calls of the program.
pub record Cobra (root : Node) : Type 1 where
  pub execute : List Text → Exec (Unit {0})
  pub executes : (argv : List Text) (h : History) → Outcome root h (execute argv h)
