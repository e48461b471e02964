-- ===== src/Effects/Faults/Calls.antt =====
-- The rule of honesty at each call: `search` does not find the general rule where the call stands
-- under a binder.
use uki.Base.{ℕ, Text, List, String}
use uki.Effects.{
  Env, Arg, Handle, perform, log, log_format, create, open_read, open_append, mkdir_temp, look_path,
  mkdir_all, stat, permissions, read_link, read_file, write_file, truncate_to, copy, run_command,
  run_in, gzip_writer, gzip_write, gzip_close, buffer, buffer_bytes, cpio_writer, cpio_dir,
  cpio_nod, cpio_file, cpio_symlink, cpio_close,
}
use uki.Effects.Faults.{IsHonest, IsHonest-ignoring, IsHonest-perform, honest_rules}

module _ ⦃env : Env⦄ where
  pub IsHonest-look_path : (t : Text) → IsHonest (perform (look_path t))
  IsHonest-look_path t = IsHonest-perform (look_path t)

  pub IsHonest-mkdir_all : (t : Text) (n : ℕ) → IsHonest (perform (mkdir_all t n))
  IsHonest-mkdir_all t n = IsHonest-perform (mkdir_all t n)

  pub IsHonest-stat : (t : Text) → IsHonest (perform (stat t))
  IsHonest-stat t = IsHonest-perform (stat t)

  pub IsHonest-permissions : (t : Text) → IsHonest (perform (permissions t))
  IsHonest-permissions t = IsHonest-perform (permissions t)

  pub IsHonest-read_link : (t : Text) → IsHonest (perform (read_link t))
  IsHonest-read_link t = IsHonest-perform (read_link t)

  pub IsHonest-read_file : (t : Text) → IsHonest (perform (read_file t))
  IsHonest-read_file t = IsHonest-perform (read_file t)

  pub IsHonest-write_file : (t : Text) (u : Text) (n : ℕ) → IsHonest (perform (write_file t u n))
  IsHonest-write_file t u n = IsHonest-perform (write_file t u n)

  pub IsHonest-truncate_to : (f : Handle) (n : ℕ) → IsHonest (perform (truncate_to f n))
  IsHonest-truncate_to f n = IsHonest-perform (truncate_to f n)

  pub IsHonest-copy : (f : Handle) (g : Handle) → IsHonest (perform (copy f g))
  IsHonest-copy f g = IsHonest-perform (copy f g)

  pub IsHonest-run_command : (t : Text) (l : List Text) → IsHonest (perform (run_command t l))
  IsHonest-run_command t l = IsHonest-perform (run_command t l)

  pub IsHonest-run_in :
      (t : Text) (l : List Text) (u : Text) (k : List Text) → IsHonest (perform (run_in t l u k))
  IsHonest-run_in t l u k = IsHonest-perform (run_in t l u k)

  pub IsHonest-gzip_writer : (f : Handle) → IsHonest (perform (gzip_writer f))
  IsHonest-gzip_writer f = IsHonest-perform (gzip_writer f)

  pub IsHonest-gzip_write : (f : Handle) (t : Text) → IsHonest (perform (gzip_write f t))
  IsHonest-gzip_write f t = IsHonest-perform (gzip_write f t)

  pub IsHonest-gzip_close : (f : Handle) → IsHonest (perform (gzip_close f))
  IsHonest-gzip_close f = IsHonest-perform (gzip_close f)

  pub IsHonest-buffer : IsHonest (perform buffer)
  IsHonest-buffer = IsHonest-perform buffer

  pub IsHonest-buffer_bytes : (f : Handle) → IsHonest (perform (buffer_bytes f))
  IsHonest-buffer_bytes f = IsHonest-perform (buffer_bytes f)

  pub IsHonest-cpio_writer : (f : Handle) → IsHonest (perform (cpio_writer f))
  IsHonest-cpio_writer f = IsHonest-perform (cpio_writer f)

  pub IsHonest-cpio_dir : (f : Handle) (t : Text) (n : ℕ) → IsHonest (perform (cpio_dir f t n))
  IsHonest-cpio_dir f t n = IsHonest-perform (cpio_dir f t n)

  pub IsHonest-cpio_nod :
      (f : Handle) (t : Text) (n : ℕ) (a : ℕ) (b : ℕ) → IsHonest (perform (cpio_nod f t n a b))
  IsHonest-cpio_nod f t n a b = IsHonest-perform (cpio_nod f t n a b)

  pub IsHonest-cpio_file :
      (f : Handle) (t : Text) (n : ℕ) (u : Text) → IsHonest (perform (cpio_file f t n u))
  IsHonest-cpio_file f t n u = IsHonest-perform (cpio_file f t n u)

  pub IsHonest-cpio_symlink :
      (f : Handle) (t : Text) (u : Text) (n : ℕ) → IsHonest (perform (cpio_symlink f t u n))
  IsHonest-cpio_symlink f t u n = IsHonest-perform (cpio_symlink f t u n)

  pub IsHonest-cpio_close : (f : Handle) → IsHonest (perform (cpio_close f))
  IsHonest-cpio_close f = IsHonest-perform (cpio_close f)

  pub IsHonest-create : (t : Text) → IsHonest (perform (create t))
  IsHonest-create t = IsHonest-perform (create t)

  pub IsHonest-open_read : (t : Text) → IsHonest (perform (open_read t))
  IsHonest-open_read t = IsHonest-perform (open_read t)

  pub IsHonest-open_append : (t : Text) → IsHonest (perform (open_append t))
  IsHonest-open_append t = IsHonest-perform (open_append t)

  pub IsHonest-log : (f : String) (l : List Arg) → IsHonest (log f l)
  unfolding log
  IsHonest-log f l = IsHonest-ignoring _ (IsHonest-perform (log_format f l))

  pub IsHonest-mkdir_temp : (t : Text) → IsHonest (perform (mkdir_temp t))
  IsHonest-mkdir_temp t = IsHonest-perform (mkdir_temp t)

pub ruleset honest = (
  honest_rules, IsHonest-create, IsHonest-open_read, IsHonest-open_append, IsHonest-mkdir_temp,
  IsHonest-log, IsHonest-look_path, IsHonest-mkdir_all, IsHonest-stat, IsHonest-permissions,
  IsHonest-read_link, IsHonest-read_file, IsHonest-write_file, IsHonest-truncate_to, IsHonest-copy,
  IsHonest-run_command, IsHonest-run_in, IsHonest-gzip_writer, IsHonest-gzip_write,
  IsHonest-gzip_close, IsHonest-buffer, IsHonest-buffer_bytes, IsHonest-cpio_writer,
  IsHonest-cpio_dir, IsHonest-cpio_nod, IsHonest-cpio_file, IsHonest-cpio_symlink,
  IsHonest-cpio_close,
)
