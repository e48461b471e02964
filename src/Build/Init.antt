-- ===== src/Build/Init.antt =====
-- `buildInit` and `locateInitModule` of cmd/cloud-boot/build/build.go.
use uki.Base.{Text, ascii, is_set, List, [], ◌∷◌, ◌++◌, if◌then◌else◌}
use uki.FilePath
use uki.Effects.{
  Exec, Env, text, log, ◌>>◌, errorf, pure, fail, succeeds, ◌>>=◌, perform, stat, run_in,
}

module _ ⦃env : Env⦄ where
  -- `locateInitModule`
  unfoldable pub locate_init_module : Exec Text
  locate_init_module =
      let v = env.getenv (ascii "CLOUD_BOOT_INIT_DIR") in
      if is_set v then pure v else do
        let candidate = FilePath.clean (ascii "../init")
        found ← succeeds (perform (stat (FilePath.join (candidate ∷ ascii "go.mod" ∷ []))))
        if found
            then pure candidate
            else fail (
                errorf "cannot find init module: set CLOUD_BOOT_INIT_DIR or run from cloud-boot/uki"
                  [])

  -- The arguments of `go`.
  pub go_arguments : Text → List Text
  go_arguments out =
      ascii "build"
      ∷ ascii "-trimpath"
      ∷ ascii "-ldflags"
      ∷ ascii "-s -w -extldflags '-static'"
      ∷ ascii "-tags"
      ∷ ascii "netgo,osusergo"
      ∷ ascii "-o"
      ∷ out
      ∷ ascii "./cmd/cloud-boot-init"
      ∷ []

  -- `buildInit`: the command, its arguments, its directory and its environment.
  unfoldable pub build_init : Text → Text → Exec (Unit {0})
  build_init out goarch = do
    log "building cloud-boot-init for linux/%s -> %s" (text goarch ∷ text out ∷ [])
    init_dir ← locate_init_module
    perform (
        run_in (ascii "go") (go_arguments out) init_dir (
          env.environ
          ++ ascii "CGO_ENABLED=0" ∷ ascii "GOOS=linux" ∷ (ascii "GOARCH=" ++ goarch) ∷ []))
