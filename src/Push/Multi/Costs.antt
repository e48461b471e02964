-- ===== src/Push/Multi/Costs.antt =====
-- How long `Run` of cmd/cloud-boot/push/multi runs.
use Prim.Native.Nat.{◌*◌}
use uki.Base.{
  ℕ, ◌≡◌, refl, ◌+◌, ◌≤◌, Text, List, [], ◌∷◌, ◌++◌, length, length-append, arith, Bool-cases, inl,
  inr,
}
use uki.Base.Order.Laws.{length-sort_strings}
use uki.Effects.{Env, History, lift, wrapping}
use uki.Effects.Hoare.{Triple, Triple-any, Triple-bind, Triple-pure, Triple-weaken}
use uki.Effects.Costs.{
  Costs, Costs-weaken, Costs-pure, Costs-lift, Costs-fail_if, Costs-bind, Costs-bind_returned,
  Costs-wrapping,
}
use uki.Push.Artifact
use uki.Push.Artifact.Costs as ArtifactCosts
use uki.Push.Index.Costs as IndexCosts
use uki.Push.Index.PlatformList.{PlatformList, set}
use uki.Push.Index.PlatformList.Laws.{length-set}
use uki.Push.Multi.{
  Opts, contains, collect, collect_all, unique_platforms, derive_per_arch_ref, artifact_opts,
  push_all, run,
}
use uki.Push.Artifact.Costs.{present}
use uki.Push.Multi.PathList.{PathList, path_for}
use uki.Push.Multi.Delivery.{flags}

length-collect : (l : PathList) (out : List Text) → length (collect l out) ≤ length out + length l
unfolding collect
length-collect [] out = omega arith
length-collect (p ∷ l) out = elim (Bool-cases (contains out p.platform)) [
  | inl seen ↦ rw seen (omega (arith, length-collect l out))
  | inr new ↦ rw new (
      omega (arith, length-collect l (out ++ p.platform ∷ []), length-append out (p.platform ∷ [])))
]

-- The platforms are no more than the entries.
length-unique_platforms :
    (k i m : PathList) → length (unique_platforms (k ∷ i ∷ m ∷ [])) ≤ length k + length i + length m
unfolding unique_platforms collect_all
length-unique_platforms k i m =
    let a = collect k [] in
    let b = collect i a in
    omega (
      arith,
      length-sort_strings (collect m b),
      length-collect m b,
      length-collect i a,
      length-collect k [],
    )

-- A platform: its config, its manifest, a line and its entry of the index, two calls for each of
-- its files, and one for the command line.
abbrev pub arch_calls : Opts → Text → ℕ
arch_calls o platform =
    4
    + 2 * present (path_for o.kernels platform)
    + 2 * present (path_for o.initrds platform)
    + 2 * present (path_for o.modules platform)
    + present o.cmdline

abbrev pub all_calls : Opts → List Text → ℕ
all_calls o [] = 0
all_calls o (p ∷ platforms) = arch_calls o p + all_calls o platforms

module _ ⦃env : Env⦄ (o : Opts) where
  -- The manifests, without the index.
  abbrev pushes : List Text → ℕ
  pushes [] = 0
  pushes (p ∷ platforms) =
      3
      + (2 * present (path_for o.kernels p)
          + (2 * present (path_for o.initrds p)
              + (2 * present (path_for o.modules p) + present o.cmdline)))
      + pushes platforms

  pushes-all_calls : (ps : List Text) → pushes ps + length ps ≡ all_calls o ps
  pushes-all_calls [] = refl
  pushes-all_calls (p ∷ ps) = omega (arith, pushes-all_calls ps)

  Costs-push_all :
      (platforms : List Text) (specs : PlatformList)
      → Costs (pushes platforms) (push_all o platforms specs)
  unfolding push_all artifact_opts
  Costs-push_all [] specs = Costs-pure specs
  Costs-push_all (platform ∷ platforms) specs =
      let n = 3 + ArtifactCosts.layer_calls (artifact_opts o platform []) in
      Costs-weaken (0 + (n + (0 + pushes platforms))) _ _ (omega arith) (
        Costs-bind 0 _ _ _ (Costs-lift _) (λ arch_ref.
          Costs-bind n _ _ _
            (Costs-wrapping _ _ _ (ArtifactCosts.Costs-run (artifact_opts o platform arch_ref)))
            (λ _.
              Costs-bind 0 _ _ _ (Costs-lift _)
                (λ _. Costs-push_all platforms (set (platform ++ b'=' ∷ arch_ref) specs).1))))

  push_all-length :
      (platforms : List Text) (specs : PlatformList)
      → Triple
          (λ _. Unit {0})
          (push_all o platforms specs)
          (λ ss _. length ss ≤ length specs + length platforms)
          (λ _. Unit {0})
  unfolding push_all
  push_all-length [] specs = Triple-pure specs (λ h _. omega arith)
  push_all-length (platform ∷ platforms) specs =
      Triple-bind _ _ _ (Triple-any (lift (derive_per_arch_ref o.ref platform))) (λ arch_ref.
        let v = platform ++ b'=' ∷ arch_ref in
        Triple-bind _ _ _
          (Triple-any (
            wrapping "push %s: %w" (platform ∷ [])
              (Artifact.run (artifact_opts o platform arch_ref))))
          (λ _. Triple-bind _ _ _ (Triple-any (lift (set v specs).0)) (λ _.
            Triple-weaken _ (push_all-length platforms (set v specs).1) (λ h u. u)
              (λ ss h le. omega (arith, le, length-set v specs)) (λ h u. u))))

  Costs-run : Costs (2 + all_calls o (unique_platforms (flags o))) (run o)
  unfolding run
  Costs-run =
      let platforms = unique_platforms (flags o) in
      let n = length platforms in
      Costs-weaken (0 + (0 + (pushes platforms + (n + 2)))) _ _
        (omega (arith, pushes-all_calls platforms))
        (Costs-bind 0 _ _ _ (Costs-fail_if _ _) (λ _. Costs-bind 0 _ _ _ (Costs-lift _) (λ _.
          Costs-bind_returned (λ ss. length ss ≤ 0 + n) (pushes platforms) (n + 2) _ _
            (Costs-push_all platforms []) (push_all-length platforms [])
            (λ specs le.
              Costs-weaken (length specs + 2) _ _ (omega (arith, le))
                (IndexCosts.Costs-run (record { platforms = specs; out_ref = o.ref }))))))

-- `multi.Run` ends, whatever the replies are, after at most two calls for the index, four for each
-- distinct platform (its config, its manifest, the line that is printed and its entry of the
-- index), two for each file that a platform has (a read and an upload), and one for each platform
-- if there is a command line; and there are no more platforms than entries in the three lists.
pub multi_run-bounded :
    ⦃env : Env⦄ (o : Opts) (h : History)
    → (length (run o h).1 ≤ 2 + all_calls o (unique_platforms (flags o)) + length h)
      × (length (unique_platforms (flags o))
          ≤ length o.kernels + length o.initrds + length o.modules)
multi_run-bounded o h = ((Costs-run o).at h, length-unique_platforms o.kernels o.initrds o.modules)
