-- ===== src/Build/Stub.antt =====
-- `DefaultStubRoots` and `defaultStub` of cmd/cloud-boot/build/build.go.
pub mod Choice
pub mod Search
use uki.Base.{Text, ascii, List, [], ◌∷◌, if◌then◌else◌}
use uki.FilePath
use uki.Effects.{Exec, Env, pure, succeeds, ◌>>=◌, perform, stat}

-- `DefaultStubRoots`
pub default_stub_roots : List Text
default_stub_roots =
    ascii "/usr/lib/systemd/boot/efi"
    ∷ ascii "/usr/lib64/systemd/boot/efi"
    ∷ ascii "/lib/systemd/boot/efi"
    ∷ []

module _ ⦃env : Env⦄ where
  -- The loop of `defaultStub` over the roots.
  unfoldable pub first_stub : Text → List Text → Exec Text
  first_stub stub_name [] = pure []
  first_stub stub_name (root ∷ roots) = do
    let p = FilePath.join (root ∷ stub_name ∷ [])
    found ← succeeds (perform (stat p))
    if found then pure p else first_stub stub_name roots

  -- `defaultStub`
  unfoldable pub default_stub : Text → Exec Text
  default_stub stub_name = first_stub stub_name default_stub_roots
