-- ===== src/Effects/Grows/Calls.antt =====
-- The rules of growth at the calls that take a handle, which `search` does not find under a
-- binder by the general rule.
use uki.Base.{String, List, ℕ, Text}
use uki.Effects.{
  Arg, log, log_format, Env, Handle, perform, create, gzip_writer, gzip_write, gzip_close,
  buffer_bytes, cpio_writer, cpio_dir, cpio_nod, cpio_file, cpio_symlink, cpio_close,
}
use uki.Effects.Grows.{Grows, Grows-ignoring, Grows-perform, grows_rules}

module _ ⦃env : Env⦄ where
  pub Grows-gzip_writer : (f : Handle) → Grows (perform (gzip_writer f))
  Grows-gzip_writer f = Grows-perform (gzip_writer f)

  pub Grows-gzip_write : (f : Handle) (t : Text) → Grows (perform (gzip_write f t))
  Grows-gzip_write f t = Grows-perform (gzip_write f t)

  pub Grows-gzip_close : (f : Handle) → Grows (perform (gzip_close f))
  Grows-gzip_close f = Grows-perform (gzip_close f)

  pub Grows-buffer_bytes : (f : Handle) → Grows (perform (buffer_bytes f))
  Grows-buffer_bytes f = Grows-perform (buffer_bytes f)

  pub Grows-cpio_writer : (f : Handle) → Grows (perform (cpio_writer f))
  Grows-cpio_writer f = Grows-perform (cpio_writer f)

  pub Grows-cpio_dir : (f : Handle) (t : Text) (n : ℕ) → Grows (perform (cpio_dir f t n))
  Grows-cpio_dir f t n = Grows-perform (cpio_dir f t n)

  pub Grows-cpio_nod :
      (f : Handle) (t : Text) (n : ℕ) (a : ℕ) (b : ℕ) → Grows (perform (cpio_nod f t n a b))
  Grows-cpio_nod f t n a b = Grows-perform (cpio_nod f t n a b)

  pub Grows-cpio_file :
      (f : Handle) (t : Text) (n : ℕ) (u : Text) → Grows (perform (cpio_file f t n u))
  Grows-cpio_file f t n u = Grows-perform (cpio_file f t n u)

  pub Grows-cpio_symlink :
      (f : Handle) (t : Text) (u : Text) (n : ℕ) → Grows (perform (cpio_symlink f t u n))
  Grows-cpio_symlink f t u n = Grows-perform (cpio_symlink f t u n)

  pub Grows-cpio_close : (f : Handle) → Grows (perform (cpio_close f))
  Grows-cpio_close f = Grows-perform (cpio_close f)

  pub Grows-log : (f : String) (l : List Arg) → Grows (log f l)
  unfolding log
  Grows-log f l = Grows-ignoring _ (Grows-perform (log_format f l))

  pub Grows-create : (t : Text) → Grows (perform (create t))
  Grows-create t = Grows-perform (create t)

pub ruleset grows = (
  grows_rules, Grows-log, Grows-create, Grows-gzip_writer, Grows-gzip_write, Grows-gzip_close,
  Grows-buffer_bytes, Grows-cpio_writer, Grows-cpio_dir, Grows-cpio_nod, Grows-cpio_file,
  Grows-cpio_symlink, Grows-cpio_close,
)
