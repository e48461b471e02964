-- ===== src/Label.antt =====
-- cmd/cloud-boot/label/cmd.go
pub mod Cmd
pub mod Stamps
pub mod Balance
pub mod Local
use uki.Base.{Text, [], ◌∷◌, ascii, List, ◌++◌}
use uki.Effects.{
  Exec, Env, ℤ, text, int, ignoring, ◌>>=◌, ◌>>◌, perform, print, print_format, ext4_label,
  set_ext4_label,
}

module _ ⦃env : Env⦄ where
  -- The command with one argument.
  unfoldable pub read : Text → ℤ → Exec (Unit {0})
  read path part = do label ← perform (ext4_label path part); print (label ++ ascii "\n")

  -- The command with two.
  unfoldable pub stamp : Text → ℤ → Text → Exec (Unit {0})
  stamp path part label = do
    perform (set_ext4_label path part label)
    ignoring (
        perform (
          print_format "stamped LABEL=%q on %s (part %d)\n"
            (text label ∷ text path ∷ int part ∷ [])))

  -- `RunE`. Cobra has checked that there are one or two arguments.
  unfoldable pub run : ℤ → Text → List Text → Exec (Unit {0})
  run part path [] = read path part
  run part path (label ∷ _) = stamp path part label
