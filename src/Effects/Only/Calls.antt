-- ===== src/Effects/Only/Calls.antt =====
-- The rule at each call: `search` does not find the general rule where the call stands
-- under a binder.
use uki.Base.{ℕ, Text, List, String}
use uki.Effects.{
  Call, Env, Handle, ℤ, Arg, perform, remove_all, print_line, print_format, log, log_format,
  ext4_label, set_ext4_label, create, open_read, open_append, mkdir_temp, look_path, mkdir_all,
  stat, permissions, read_link, read_file, write_file, truncate_to, copy, run_command, run_in,
  gzip_writer, gzip_write, gzip_close, buffer, buffer_bytes, cpio_writer, cpio_dir, cpio_nod,
  cpio_file, cpio_symlink, cpio_close,
}
use uki.Effects.Only.{Only, Only-perform, only_rules, Only-ignoring}

module _ ⦃env : Env⦄ {P : Call → Type 0} where
  pub Only-look_path : (t : Text) → P (look_path t) → Only P (perform (look_path t))
  Only-look_path t ok_call = Only-perform (look_path t) ok_call

  pub Only-mkdir_all : (t : Text) (n : ℕ) → P (mkdir_all t n) → Only P (perform (mkdir_all t n))
  Only-mkdir_all t n ok_call = Only-perform (mkdir_all t n) ok_call

  pub Only-stat : (t : Text) → P (stat t) → Only P (perform (stat t))
  Only-stat t ok_call = Only-perform (stat t) ok_call

  pub Only-permissions : (t : Text) → P (permissions t) → Only P (perform (permissions t))
  Only-permissions t ok_call = Only-perform (permissions t) ok_call

  pub Only-read_link : (t : Text) → P (read_link t) → Only P (perform (read_link t))
  Only-read_link t ok_call = Only-perform (read_link t) ok_call

  pub Only-read_file : (t : Text) → P (read_file t) → Only P (perform (read_file t))
  Only-read_file t ok_call = Only-perform (read_file t) ok_call

  pub Only-write_file :
      (t : Text) (u : Text) (n : ℕ) → P (write_file t u n) → Only P (perform (write_file t u n))
  Only-write_file t u n ok_call = Only-perform (write_file t u n) ok_call

  pub Only-truncate_to :
      (f : Handle) (n : ℕ) → P (truncate_to f n) → Only P (perform (truncate_to f n))
  Only-truncate_to f n ok_call = Only-perform (truncate_to f n) ok_call

  pub Only-copy : (f : Handle) (g : Handle) → P (copy f g) → Only P (perform (copy f g))
  Only-copy f g ok_call = Only-perform (copy f g) ok_call

  pub Only-run_command :
      (t : Text) (l : List Text) → P (run_command t l) → Only P (perform (run_command t l))
  Only-run_command t l ok_call = Only-perform (run_command t l) ok_call

  pub Only-run_in :
      (t : Text) (l : List Text) (u : Text) (k : List Text)
      → P (run_in t l u k)
      → Only P (perform (run_in t l u k))
  Only-run_in t l u k ok_call = Only-perform (run_in t l u k) ok_call

  pub Only-gzip_writer : (f : Handle) → P (gzip_writer f) → Only P (perform (gzip_writer f))
  Only-gzip_writer f ok_call = Only-perform (gzip_writer f) ok_call

  pub Only-gzip_write :
      (f : Handle) (t : Text) → P (gzip_write f t) → Only P (perform (gzip_write f t))
  Only-gzip_write f t ok_call = Only-perform (gzip_write f t) ok_call

  pub Only-gzip_close : (f : Handle) → P (gzip_close f) → Only P (perform (gzip_close f))
  Only-gzip_close f ok_call = Only-perform (gzip_close f) ok_call

  pub Only-buffer : P buffer → Only P (perform buffer)
  Only-buffer ok_call = Only-perform buffer ok_call

  pub Only-buffer_bytes : (f : Handle) → P (buffer_bytes f) → Only P (perform (buffer_bytes f))
  Only-buffer_bytes f ok_call = Only-perform (buffer_bytes f) ok_call

  pub Only-cpio_writer : (f : Handle) → P (cpio_writer f) → Only P (perform (cpio_writer f))
  Only-cpio_writer f ok_call = Only-perform (cpio_writer f) ok_call

  pub Only-cpio_dir :
      (f : Handle) (t : Text) (n : ℕ) → P (cpio_dir f t n) → Only P (perform (cpio_dir f t n))
  Only-cpio_dir f t n ok_call = Only-perform (cpio_dir f t n) ok_call

  pub Only-cpio_nod :
      (f : Handle) (t : Text) (n : ℕ) (a : ℕ) (b : ℕ)
      → P (cpio_nod f t n a b)
      → Only P (perform (cpio_nod f t n a b))
  Only-cpio_nod f t n a b ok_call = Only-perform (cpio_nod f t n a b) ok_call

  pub Only-cpio_file :
      (f : Handle) (t : Text) (n : ℕ) (u : Text)
      → P (cpio_file f t n u)
      → Only P (perform (cpio_file f t n u))
  Only-cpio_file f t n u ok_call = Only-perform (cpio_file f t n u) ok_call

  pub Only-cpio_symlink :
      (f : Handle) (t : Text) (u : Text) (n : ℕ)
      → P (cpio_symlink f t u n)
      → Only P (perform (cpio_symlink f t u n))
  Only-cpio_symlink f t u n ok_call = Only-perform (cpio_symlink f t u n) ok_call

  pub Only-cpio_close : (f : Handle) → P (cpio_close f) → Only P (perform (cpio_close f))
  Only-cpio_close f ok_call = Only-perform (cpio_close f) ok_call

  pub Only-create : (t : Text) → P (create t) → Only P (perform (create t))
  Only-create t ok_call = Only-perform (create t) ok_call

  pub Only-open_read : (t : Text) → P (open_read t) → Only P (perform (open_read t))
  Only-open_read t ok_call = Only-perform (open_read t) ok_call

  pub Only-open_append : (t : Text) → P (open_append t) → Only P (perform (open_append t))
  Only-open_append t ok_call = Only-perform (open_append t) ok_call

  pub Only-mkdir_temp : (t : Text) → P (mkdir_temp t) → Only P (perform (mkdir_temp t))
  Only-mkdir_temp t ok_call = Only-perform (mkdir_temp t) ok_call

  pub Only-remove_all : (t : Text) → P (remove_all t) → Only P (perform (remove_all t))
  Only-remove_all t ok_call = Only-perform (remove_all t) ok_call

  pub Only-print_line : (t : Text) → P (print_line t) → Only P (perform (print_line t))
  Only-print_line t ok_call = Only-perform (print_line t) ok_call

  pub Only-print_format :
      (f : String) (l : List Arg) → P (print_format f l) → Only P (perform (print_format f l))
  Only-print_format f l ok_call = Only-perform (print_format f l) ok_call

  pub Only-log : (f : String) (l : List Arg) → P (log_format f l) → Only P (log f l)
  unfolding log
  Only-log f l ok_call = Only-ignoring _ (Only-perform (log_format f l) ok_call)

  pub Only-ext4_label : (t : Text) (n : ℤ) → P (ext4_label t n) → Only P (perform (ext4_label t n))
  Only-ext4_label t n ok_call = Only-perform (ext4_label t n) ok_call

  pub Only-set_ext4_label :
      (t : Text) (n : ℤ) (l : Text)
      → P (set_ext4_label t n l)
      → Only P (perform (set_ext4_label t n l))
  Only-set_ext4_label t n l ok_call = Only-perform (set_ext4_label t n l) ok_call

pub ruleset only = (
  only_rules, Only-remove_all, Only-print_line, Only-print_format, Only-log, Only-ext4_label,
  Only-set_ext4_label, Only-create, Only-open_read, Only-open_append, Only-mkdir_temp,
  Only-look_path, Only-mkdir_all, Only-stat, Only-permissions, Only-read_link, Only-read_file,
  Only-write_file, Only-truncate_to, Only-copy, Only-run_command, Only-run_in, Only-gzip_writer,
  Only-gzip_write, Only-gzip_close, Only-buffer, Only-buffer_bytes, Only-cpio_writer, Only-cpio_dir,
  Only-cpio_nod, Only-cpio_file, Only-cpio_symlink, Only-cpio_close,
)
