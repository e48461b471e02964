-- ===== src/Push/Index/Options.antt =====
-- The options that cobra can hand to `push index`.
use native.Mathlib.Decide.{ℕ_discrete}
use uki.Base.{ascii, Text-discrete, Text, List, [], ◌∷◌, ◌++◌, ◌≡◌, refl, ap, ◌∙◌}
use uki.Effects.{Env, History}
use uki.Effects.Hoare.{After}
use uki.Cobra.{Flag}
use uki.Cobra.Execute.{IsIn, first, later, Assigns, Parsed, unset, given, values_of}
use uki.Push.Closed.{Accepted, IsClosed, manifests, indexes}
use uki.Push.Index.{Opts}
use uki.Push.Index.PlatformList.{get_slice}
use uki.Push.Index.PlatformList.Laws.{get_slice-set}
use uki.Push.Index.Delivery.{Pushed, index_run-Pushed}
use uki.Push.Index.Cmd
use uki.Push.Index.Cmd.{set_platform}

assign_platform :
    (f : Flag Opts) (v : Text) (l : List (Text × Text)) (o o' : Opts)
    → IsIn f Cmd.flags
    → Assigns f.variable v o o'
    → get_slice o.platforms ≡ values_of (ascii "platform") l
    → get_slice o'.platforms ≡ values_of (ascii "platform") ((f.name, v) ∷ l)
unfolding Cmd.flags set_platform values_of ascii Text-discrete ℕ_discrete
assign_platform f v l o o' first a h =
    rw (← ap (λ r. r.1) a)
      (get_slice-set v o.platforms (ap (λ r. r.0) a) ∙ ap (λ vals. vals ++ v ∷ []) h)
assign_platform f v l o o' (later i) a h = elim i [ ]

-- The list is spelled as the values of the flag, in their order.
pub spelled :
    ⦃env : Env⦄ {l : List (Text × Text)} {o : Opts}
    → Parsed Cmd.cmd l o
    → get_slice o.platforms ≡ values_of (ascii "platform") l
unfolding values_of get_slice
spelled unset = refl
spelled (given {l = l} {o = o} {o' = o'} f v p i a) = assign_platform f v l o o' i a (spelled p)

-- However `push index` is called, from a history in which every manifest and index refers only to
-- what was uploaded or described ahead of it: the entries of its list, as `GetSlice` writes them,
-- are the values of `--platform`, in their order and byte for byte; a success has published one
-- index under the argument, with the descriptors that the registry returned for these entries, and
-- no manifest, and an error nothing.
pub index_cmd-Pushed :
    ⦃env : Env⦄ {l : List (Text × Text)} {o : Opts} (out_ref : Text) (h : History)
    → Parsed Cmd.cmd l o
    → IsClosed h
    → (get_slice o.platforms ≡ values_of (ascii "platform") l)
      × After
          (λ _. Pushed (manifests h) (indexes h) (record o { out_ref = out_ref }))
          (Accepted (manifests h) (indexes h))
          ((Cmd.cmd).run o out_ref h)
index_cmd-Pushed {o = o} out_ref h p c =
    (spelled p, index_run-Pushed (record o { out_ref = out_ref }) h c)
