-- ===== src/Effects/Resources/Quiet.antt =====
-- The calls that neither acquire nor release, one rule each, and the rules for all ways to build an
-- action.
use uki.Base.{ℕ, Text, List, String}
use uki.Oci.{Ref, Manifest, Index}
use uki.Effects.{
  Env, Handle, ℤ, Arg, perform, push_blob, push_manifest, push_index, describe_manifest, print_line,
  print_format, log, log_format, ext4_label, set_ext4_label, look_path, mkdir_all, stat,
  permissions, read_link, read_file, write_file, truncate_to, copy, run_command, run_in,
  gzip_writer, gzip_write, gzip_close, buffer, buffer_bytes, cpio_writer, cpio_dir, cpio_nod,
  cpio_file, cpio_symlink, cpio_close,
}
use uki.Effects.Resources.{IsBalanced-ignoring, IsBalanced, IsBalanced-perform, balance_rules}

module _ ⦃env : Env⦄ where
  pub IsBalanced-look_path : (t : Text) → IsBalanced (perform (look_path t))
  IsBalanced-look_path t = IsBalanced-perform (look_path t) tt

  pub IsBalanced-mkdir_all : (t : Text) (n : ℕ) → IsBalanced (perform (mkdir_all t n))
  IsBalanced-mkdir_all t n = IsBalanced-perform (mkdir_all t n) tt

  pub IsBalanced-stat : (t : Text) → IsBalanced (perform (stat t))
  IsBalanced-stat t = IsBalanced-perform (stat t) tt

  pub IsBalanced-permissions : (t : Text) → IsBalanced (perform (permissions t))
  IsBalanced-permissions t = IsBalanced-perform (permissions t) tt

  pub IsBalanced-read_link : (t : Text) → IsBalanced (perform (read_link t))
  IsBalanced-read_link t = IsBalanced-perform (read_link t) tt

  pub IsBalanced-read_file : (t : Text) → IsBalanced (perform (read_file t))
  IsBalanced-read_file t = IsBalanced-perform (read_file t) tt

  pub IsBalanced-write_file :
      (t : Text) (u : Text) (n : ℕ) → IsBalanced (perform (write_file t u n))
  IsBalanced-write_file t u n = IsBalanced-perform (write_file t u n) tt

  pub IsBalanced-truncate_to : (f : Handle) (n : ℕ) → IsBalanced (perform (truncate_to f n))
  IsBalanced-truncate_to f n = IsBalanced-perform (truncate_to f n) tt

  pub IsBalanced-copy : (f : Handle) (g : Handle) → IsBalanced (perform (copy f g))
  IsBalanced-copy f g = IsBalanced-perform (copy f g) tt

  pub IsBalanced-run_command : (t : Text) (l : List Text) → IsBalanced (perform (run_command t l))
  IsBalanced-run_command t l = IsBalanced-perform (run_command t l) tt

  pub IsBalanced-run_in :
      (t : Text) (l : List Text) (u : Text) (k : List Text) → IsBalanced (perform (run_in t l u k))
  IsBalanced-run_in t l u k = IsBalanced-perform (run_in t l u k) tt

  pub IsBalanced-gzip_writer : (f : Handle) → IsBalanced (perform (gzip_writer f))
  IsBalanced-gzip_writer f = IsBalanced-perform (gzip_writer f) tt

  pub IsBalanced-gzip_write : (f : Handle) (t : Text) → IsBalanced (perform (gzip_write f t))
  IsBalanced-gzip_write f t = IsBalanced-perform (gzip_write f t) tt

  pub IsBalanced-gzip_close : (f : Handle) → IsBalanced (perform (gzip_close f))
  IsBalanced-gzip_close f = IsBalanced-perform (gzip_close f) tt

  pub IsBalanced-buffer : IsBalanced (perform buffer)
  IsBalanced-buffer = IsBalanced-perform buffer tt

  pub IsBalanced-buffer_bytes : (f : Handle) → IsBalanced (perform (buffer_bytes f))
  IsBalanced-buffer_bytes f = IsBalanced-perform (buffer_bytes f) tt

  pub IsBalanced-cpio_writer : (f : Handle) → IsBalanced (perform (cpio_writer f))
  IsBalanced-cpio_writer f = IsBalanced-perform (cpio_writer f) tt

  pub IsBalanced-cpio_dir : (f : Handle) (t : Text) (n : ℕ) → IsBalanced (perform (cpio_dir f t n))
  IsBalanced-cpio_dir f t n = IsBalanced-perform (cpio_dir f t n) tt

  pub IsBalanced-cpio_nod :
      (f : Handle) (t : Text) (n : ℕ) (a : ℕ) (b : ℕ) → IsBalanced (perform (cpio_nod f t n a b))
  IsBalanced-cpio_nod f t n a b = IsBalanced-perform (cpio_nod f t n a b) tt

  pub IsBalanced-cpio_file :
      (f : Handle) (t : Text) (n : ℕ) (u : Text) → IsBalanced (perform (cpio_file f t n u))
  IsBalanced-cpio_file f t n u = IsBalanced-perform (cpio_file f t n u) tt

  pub IsBalanced-cpio_symlink :
      (f : Handle) (t : Text) (u : Text) (n : ℕ) → IsBalanced (perform (cpio_symlink f t u n))
  IsBalanced-cpio_symlink f t u n = IsBalanced-perform (cpio_symlink f t u n) tt

  pub IsBalanced-cpio_close : (f : Handle) → IsBalanced (perform (cpio_close f))
  IsBalanced-cpio_close f = IsBalanced-perform (cpio_close f) tt

  pub IsBalanced-push_blob : (r : Ref) (t : Text) → IsBalanced (perform (push_blob r t))
  IsBalanced-push_blob r t = IsBalanced-perform (push_blob r t) tt

  pub IsBalanced-push_manifest : (r : Ref) (m : Manifest) → IsBalanced (perform (push_manifest r m))
  IsBalanced-push_manifest r m = IsBalanced-perform (push_manifest r m) tt

  pub IsBalanced-push_index : (r : Ref) (i : Index) → IsBalanced (perform (push_index r i))
  IsBalanced-push_index r i = IsBalanced-perform (push_index r i) tt

  pub IsBalanced-describe_manifest : (r : Ref) → IsBalanced (perform (describe_manifest r))
  IsBalanced-describe_manifest r = IsBalanced-perform (describe_manifest r) tt

  pub IsBalanced-print_line : (t : Text) → IsBalanced (perform (print_line t))
  IsBalanced-print_line t = IsBalanced-perform (print_line t) tt

  pub IsBalanced-print_format :
      (f : String) (l : List Arg) → IsBalanced (perform (print_format f l))
  IsBalanced-print_format f l = IsBalanced-perform (print_format f l) tt

  pub IsBalanced-log : (f : String) (l : List Arg) → IsBalanced (log f l)
  unfolding log
  IsBalanced-log f l = IsBalanced-ignoring _ (IsBalanced-perform (log_format f l) tt)

  pub IsBalanced-ext4_label : (t : Text) (n : ℤ) → IsBalanced (perform (ext4_label t n))
  IsBalanced-ext4_label t n = IsBalanced-perform (ext4_label t n) tt

  pub IsBalanced-set_ext4_label :
      (t : Text) (n : ℤ) (l : Text) → IsBalanced (perform (set_ext4_label t n l))
  IsBalanced-set_ext4_label t n l = IsBalanced-perform (set_ext4_label t n l) tt

pub ruleset balanced = (
  balance_rules, IsBalanced-push_blob, IsBalanced-push_manifest, IsBalanced-push_index,
  IsBalanced-describe_manifest, IsBalanced-print_line, IsBalanced-print_format, IsBalanced-log,
  IsBalanced-ext4_label, IsBalanced-set_ext4_label, IsBalanced-look_path, IsBalanced-mkdir_all,
  IsBalanced-stat, IsBalanced-permissions, IsBalanced-read_link, IsBalanced-read_file,
  IsBalanced-write_file, IsBalanced-truncate_to, IsBalanced-copy, IsBalanced-run_command,
  IsBalanced-run_in, IsBalanced-gzip_writer, IsBalanced-gzip_write, IsBalanced-gzip_close,
  IsBalanced-buffer, IsBalanced-buffer_bytes, IsBalanced-cpio_writer, IsBalanced-cpio_dir,
  IsBalanced-cpio_nod, IsBalanced-cpio_file, IsBalanced-cpio_symlink, IsBalanced-cpio_close,
)
