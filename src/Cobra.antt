-- ===== src/Cobra.antt =====
-- What cmd/cloud-boot gives to the command-line library github.com/spf13/cobra: a tree of commands,
-- each with its flags and the variables that they set.
pub mod Execute
pub mod Everywhere
pub mod Fields
use uki.Base.{ℕ, String, Text, Bool, List, [], ◌∷◌, Option, if◌then◌else◌}
use uki.Strings.{byte_eq}
use uki.Effects.{Exec, Result, ℤ}

-- The variable of a flag, in the options `O` of its command: its default and how it is set.
-- `value_var` is a `pflag.Value`, whose method `Set` may refuse a value.
pub data Variable (O : Type 0) : Type 0 where
  text_var : Text → (Text → O → O) → Variable O
  bool_var : Bool → (Bool → O → O) → Variable O
  int_var : ℤ → (ℤ → O → O) → Variable O
  value_var : (Text → O → Result (Unit {0}) × O) → Variable O

-- A flag: `shorthand` is empty where there is none.
pub record Flag (O : Type 0) : Type 0 where
  pub name : Text
  pub shorthand : Text
  pub variable : Variable O
  pub usage : String

-- `Args`: `unchecked` where it is not set, `cobra.ExactArgs(1)`, `cobra.RangeArgs(1, 2)`.
pub data Arity : Type 0 where
  unchecked exactly_one one_or_two : Arity

-- The arguments that `RunE` is given.
abbrev pub Args : Arity → Type 0
Args unchecked = List Text
Args exactly_one = Text
Args one_or_two = Text × Option Text

-- A command with a `RunE`. `initial` are its options where no flag is given.
pub record Command : Type 1 where
  pub use_line : Text
  pub short : String
  pub long : String
  pub silence_usage : Bool
  pub Options : Type 0
  pub initial : Options
  pub flags : List (Flag Options)
  pub required : List Text
  pub arity : Arity
  pub run : Options → Args arity → Exec (Unit {0})

-- A command, or one that only groups others.
mutual
  pub data Node : Type 1 where
    leaf : Command → Node
    group : Text → String → String → Bool → Nodes → Node

  pub data Nodes : Type 1 where
    done : Nodes
    add : Node → Nodes → Nodes

-- The name of a command is the first word of its use line.
unfoldable pub first_word : Text → Text
first_word [] = []
first_word (c ∷ s) = let rest = first_word s in if byte_eq c b' ' then [] else c ∷ rest

abbrev pub name_of : Node → Text
name_of (leaf c) = first_word c.use_line
name_of (group use_line _ _ _ _) = first_word use_line
