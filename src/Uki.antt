-- ===== src/Uki.antt =====
-- internal/uki/uki.go
pub mod Written
pub mod Refusal
use uki.Base.{Text, ascii, is_empty, List, [], ◌∷◌, ◌++◌, if◌then◌else◌}
use uki.Effects.{
  Exec, Env, Section, wrapping, lift, with_file, ◌>>=◌, perform, read_file, write_file, open_read,
  create, copy, close,
}

-- `Sections`
pub record Sections : Type 0 where
  pub stub : Text
  pub linux : Text
  pub initrd : Text
  pub cmdline : Text
  pub os_rel : Text
  pub uname : Text

pub default_os_rel : Text
default_os_rel = ascii "ID=cloud-boot\nNAME=cloud-boot\nVERSION_ID=1\n"

-- The sections, from the contents of the kernel and of the initrd.
pub sections_of : Sections → Text → Text → List Section
sections_of s linux initrd =
    record {
      name = ascii ".osrel";
      contents = if is_empty s.os_rel then default_os_rel else s.os_rel;
    }
    ∷ record { name = ascii ".cmdline"; contents = s.cmdline ++ ascii "\n" }
    ∷ record { name = ascii ".uname"; contents = s.uname ++ ascii "\n" }
    ∷ record { name = ascii ".linux"; contents = linux }
    ∷ record { name = ascii ".initrd"; contents = initrd }
    ∷ []

module _ ⦃env : Env⦄ where
  -- `Build`
  unfoldable pub build : Sections → Text → Exec (Unit {0})
  build s out_path = do
    stub ← wrapping "read stub: %w" [] (perform (read_file s.stub))
    linux ← wrapping "read kernel: %w" [] (perform (read_file s.linux))
    initrd ← wrapping "read initrd: %w" [] (perform (read_file s.initrd))
    out ← wrapping "uki: %w" [] (lift (env.append_sections stub (sections_of s linux initrd)))
    perform (write_file out_path out 0o644)

  -- `Copy`
  unfoldable pub copy_file : Text → Text → Exec (Unit {0})
  copy_file dst src =
      with_file (perform (open_read src))
        (λ input. with_file (perform (create dst)) (λ output. perform (copy output input)))
