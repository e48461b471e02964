-- ===== src/Cobra/Everywhere.antt =====
-- What holds of all commands of a tree.
use uki.Base.{Text, List}
use uki.Effects.{Result, ok, err, History}
use uki.Cobra.{Command, Args, Node, leaf, group, Nodes, done, add}
use uki.Cobra.Execute.{
  Reaches, arrived, down, IsChild, head, tail, Parsed, Cobra, refused, helped, ran,
}

module _ (P : Command → Type 0) where
  abbrev mutual
    pub Everywhere : Node → Type 0
    Everywhere (leaf c) = P c
    Everywhere (group _ _ _ _ ns) = EverywhereBelow ns

    pub EverywhereBelow : Nodes → Type 0
    EverywhereBelow done = Unit
    EverywhereBelow (add n ns) = Everywhere n × EverywhereBelow ns

  Everywhere-IsChild : {n : Node} (ns : Nodes) → EverywhereBelow ns → IsChild n ns → Everywhere n
  Everywhere-IsChild done _ i = elim i [ ]
  Everywhere-IsChild (add n ns) (a, b) head = a
  Everywhere-IsChild (add m ns) (a, b) (tail i) = Everywhere-IsChild ns b i

  pub Everywhere-Reaches :
      {n : Node} {path : List Text} {c : Command} → Everywhere n → Reaches n path c → P c
  Everywhere-Reaches a arrived = a
  Everywhere-Reaches a (down {ns = ns} i r) = Everywhere-Reaches (Everywhere-IsChild ns a i) r

-- Whatever flags and arguments the command is given, its run from `h` ends as `Q` says.
pub record Runs (h : History) (Q : Result (Unit {0}) × History → Type 0) (c : Command)
    : Type 0 where
  pub run :
      (l : List (Text × Text)) (o : c.Options) (args : Args c.arity)
      → Parsed c l o
      → Q (c.run o args h)

-- What holds of an error and of a success without any call, and of the runs of all commands, holds
-- of a run of cobra.
pub Everywhere-execute :
    {root : Node} (cobra : Cobra root) (argv : List Text) (h : History)
    (Q : Result (Unit {0}) × History → Type 0)
    → ((r : Result (Unit {0})) → Q (r, h))
    → Everywhere (Runs h Q) root
    → Q (cobra.execute argv h)
Everywhere-execute cobra argv h Q idle runs = elim (cobra.executes argv h) [
  | refused e q ↦ rw q (idle (err e))
  | helped q ↦ rw q (idle (ok tt))
  | ran path c l o args reached parsed required q ↦
      rw q ((Everywhere-Reaches (Runs h Q) runs reached).run l o args parsed)
]
