-- ===== src/Push/Multi/Options.antt =====
-- The options that cobra can hand to `push multi`.
use native.Mathlib.Decide.{ℕ_discrete}
use uki.Base.{ascii, Text-discrete, Text, List, [], ◌∷◌, ◌≡◌, refl, All, ap, ◌∙◌}
use uki.Effects.{Env, Result, ok}
use uki.Cobra.{Flag}
use uki.Cobra.Execute.{IsIn, first, later, Assigns, Parsed, unset, given, value_of, values_of}
use uki.Push.Multi.{Opts}
use uki.Push.Multi.PathList
use uki.Push.Multi.PathList.Laws.{IsEntry, replace-IsEntry, replace-snoc}
use uki.Push.Multi.Delivery.{flags}
use uki.Push.Multi.Cmd
use uki.Push.Multi.Cmd.{set_kernel, set_initrd, set_modules}

-- Each list holds all values that were given for its flag, in their order, as `Set` reads them, and
-- the command line holds the value that was given last.
pub record Holds (l : List (Text × Text)) (o : Opts) : Type 0 where
  pub kernels : PathList.replace (values_of (ascii "kernel") l) [] ≡ (ok tt, o.kernels)
  pub initrds : PathList.replace (values_of (ascii "initrd") l) [] ≡ (ok tt, o.initrds)
  pub modules : PathList.replace (values_of (ascii "modules") l) [] ≡ (ok tt, o.modules)
  pub cmdline : o.cmdline ≡ value_of (ascii "cmdline") [] l

-- A value that was accepted, with the list that it made.
accepted :
    {r : Result (Unit {0})} {o o' : Opts} (l : PathList.PathList)
    → ◌≡◌ {A = Result (Unit {0}) × Opts} (r, o) (ok tt, o')
    → ◌≡◌ {A = Result (Unit {0}) × PathList.PathList} (r, l) (ok tt, l)
accepted l e = ap (λ (x : Result (Unit {0}) × Opts). (x.0, l)) e

assign-Holds :
    (f : Flag Opts) (v : Text) (l : List (Text × Text)) (o o' : Opts)
    → IsIn f Cmd.flags
    → Assigns f.variable v o o'
    → Holds l o
    → Holds ((f.name, v) ∷ l) o'
unfolding Cmd.flags set_kernel set_initrd set_modules value_of values_of ascii Text-discrete
    ℕ_discrete
assign-Holds f v l o o' first a h = rw (← ap (λ r. r.1) a) (record {
  kernels = replace-snoc _ v [] h.kernels ∙ accepted _ a;
  initrds = h.initrds;
  modules = h.modules;
  cmdline = h.cmdline;
})
assign-Holds f v l o o' (later first) a h = rw (← ap (λ r. r.1) a) (record {
  kernels = h.kernels;
  initrds = replace-snoc _ v [] h.initrds ∙ accepted _ a;
  modules = h.modules;
  cmdline = h.cmdline;
})
assign-Holds f v l o o' (later (later first)) a h = rw (← ap (λ r. r.1) a) (record {
  kernels = h.kernels;
  initrds = h.initrds;
  modules = replace-snoc _ v [] h.modules ∙ accepted _ a;
  cmdline = h.cmdline;
})
assign-Holds f v l o o' (later (later (later first))) a h =
    rw a (record { kernels = h.kernels; initrds = h.initrds; modules = h.modules; cmdline = refl })
assign-Holds f v l o o' (later (later (later (later i)))) a h = elim i [ ]

-- However `push multi` is called: each list that its run is given holds the values of its flag, in
-- their order, as `Set` reads them, and the command line the value that was given last.
pub multi_options-Holds :
    ⦃env : Env⦄ {l : List (Text × Text)} {o : Opts} → Parsed Cmd.cmd l o → Holds l o
unfolding values_of value_of PathList.replace
multi_options-Holds unset = record {
  kernels = refl;
  initrds = refl;
  modules = refl;
  cmdline = refl;
}
multi_options-Holds (given {l = l} {o = o} {o' = o'} f v p i a) =
    assign-Holds f v l o o' i a (multi_options-Holds p)

entries :
    (vals : List Text) {l : PathList.PathList}
    → PathList.replace vals [] ≡ (ok tt, l)
    → All IsEntry l
entries vals e = rw e at (replace-IsEntry vals [])

-- The lists of the options have well-formed entries only.
pub options-IsEntry :
    ⦃env : Env⦄ {l : List (Text × Text)} {o : Opts}
    → Parsed Cmd.cmd l o
    → All (All IsEntry) (flags o)
options-IsEntry p =
    let h = multi_options-Holds p in
    (entries _ h.kernels, (entries _ h.initrds, (entries _ h.modules, tt)))
