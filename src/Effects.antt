-- ===== src/Effects.antt =====
-- What the program does to the world: calls of the operating system, of the OCI client, of the
-- cpio and gzip writers and of the disk-image library, each with its reply. None of these is in
-- the repository, so the replies are a parameter, `Env`: any function of the calls made so far.
-- An action threads the history of calls and returns a value or an error; an error keeps the
-- history, since what was done before it stays done.
pub mod Hoare
pub mod Log
pub mod Faults
pub mod Only
pub mod Local
pub mod Grows
pub mod Asks
pub mod Resources
pub mod Costs
use uki.Base.{ℕ, String, Text, Bool, true, false, List, [], ◌∷◌, if◌then◌else◌}
use uki.Oci.{Ref, Descriptor, Manifest, Index, MediaTypes}

-- `errorf` is `fmt.Errorf` with a format and its arguments, `wrapf` one that ends in `%w`, and
-- `external` an error that comes from outside the repository.
pub data Error : Type 0 where
  errorf : String → List Text → Error
  wrapf : String → List Text → Error → Error
  external : ℕ → Error

pub data Result {ℓ} (A : Type ℓ) : Type ℓ where
  ok : A → Result A
  err : Error → Result A

-- An open file, or a writer over one.
abbrev pub Handle : Type 0
Handle = ℕ

-- What `filepath.WalkDir` finds at a path: the tree of directory entries, with the errors of
-- reading it. `missing` is a path that cannot be examined, `unlistable` a directory whose entries
-- cannot be read.
mutual
  pub data Tree : Type 0 where
    missing : Error → Tree
    directory : Listing → Tree
    unlistable : Error → Tree
    symlink regular other : Tree

  pub data Listing : Type 0 where
    end : Listing
    entry : Text → Tree → Listing → Listing

-- Go's `int`: `negsuc n` is -(n + 1).
pub data ℤ : Type 0 where
  pos : ℕ → ℤ
  negsuc : ℕ → ℤ

-- An argument of `fmt.Fprintf`.
pub data Arg : Type 0 where
  text : Text → Arg
  int : ℤ → Arg

-- `appender.Section`; every section of the source has `DefaultCharacteristics`.
pub record Section : Type 0 where
  pub name : Text
  pub contents : Text

pub data Call : Type 0 where
  look_path : Text → Call
  mkdir_temp : Text → Call
  mkdir_all : Text → ℕ → Call
  remove_all : Text → Call
  stat : Text → Call
  permissions : Text → Call
  read_link : Text → Call
  read_file : Text → Call
  write_file : Text → Text → ℕ → Call
  create : Text → Call
  open_read : Text → Call
  open_append : Text → Call
  truncate_to : Handle → ℕ → Call
  copy : Handle → Handle → Call
  close : Handle → Call
  run_command : Text → List Text → Call
  run_in : Text → List Text → Text → List Text → Call
  gzip_writer : Handle → Call
  gzip_write : Handle → Text → Call
  gzip_close : Handle → Call
  buffer : Call
  buffer_bytes : Handle → Call
  cpio_writer : Handle → Call
  cpio_dir : Handle → Text → ℕ → Call
  cpio_nod : Handle → Text → ℕ → ℕ → ℕ → Call
  cpio_file : Handle → Text → ℕ → Text → Call
  cpio_symlink : Handle → Text → Text → ℕ → Call
  cpio_close : Handle → Call
  push_blob : Ref → Text → Call
  push_manifest : Ref → Manifest → Call
  push_index : Ref → Index → Call
  describe_manifest : Ref → Call
  ext4_label : Text → ℤ → Call
  set_ext4_label : Text → ℤ → Text → Call
  print_line : Text → Call
  print_format : String → List Arg → Call
  log_format : String → List Arg → Call

-- What a call gives when it does not fail. `stat` says whether the path is a directory.
abbrev pub Reply : Call → Type 0
Reply (mkdir_temp _) = Text
Reply (stat _) = Bool
Reply (permissions _) = ℕ
Reply (read_link _) = Text
Reply (read_file _) = Text
Reply (create _) = Handle
Reply (open_read _) = Handle
Reply (open_append _) = Handle
Reply (gzip_writer _) = Handle
Reply buffer = Handle
Reply (buffer_bytes _) = Text
Reply (cpio_writer _) = Handle
Reply (push_blob _ _) = Text
Reply (push_manifest _ _) = Text
Reply (push_index _ _) = Text
Reply (describe_manifest _) = Descriptor
Reply (ext4_label _ _) = Text
Reply _ = Unit

pub record Event : Type 0 where
  pub call : Call
  pub reply : Result (Reply call)

-- The calls made so far, the latest first.
abbrev pub History : Type 0
History = List Event

-- Everything outside the repository: how calls are answered, and the pure functions and
-- constants of foreign packages.
pub record Env : Type 0 where
  pub answer : History → (c : Call) → Result (Reply c)
  pub getenv : Text → Text
  pub environ : List Text
  pub parse_ref : Text → Result Ref
  pub append_sections : Text → List Section → Result Text
  pub tree : Text → Tree
  pub media : MediaTypes

abbrev pub Exec {ℓ} : Type ℓ → Type ℓ
Exec A = History → Result A × History

module _ {ℓ} {A : Type ℓ} where
  unfoldable pub pure : A → Exec A
  pure a h = (ok a, h)

  unfoldable pub fail : Error → Exec A
  fail e h = (err e, h)

  unfoldable pub lift : Result A → Exec A
  lift r h = (r, h)

  wrapped : String → List Text → Result A → Result A
  wrapped format args (ok a) = ok a
  wrapped format args (err e) = err (wrapf format args e)

  -- `if err != nil { return fmt.Errorf("...: %w", err) }`
  unfoldable pub wrapping : String → List Text → Exec A → Exec A
  unfolding wrapped
  wrapping format args m h = let (r, h') = m h in (wrapped format args r, h')

  -- An error of `m` is replaced by another.
  unfoldable pub replacing : Error → Exec A → Exec A
  replacing e m h = let (r, h') = m h in (elim r [ ok a ↦ ok a | err _ ↦ err e ], h')

  -- `_, err := m; err == nil`
  unfoldable pub succeeds : Exec A → Exec Bool
  succeeds m h = let (r, h') = m h in (ok (elim r [ ok _ ↦ true | err _ ↦ false ]), h')

  -- `_ = m`: the error is dropped.
  unfoldable pub ignoring : Exec A → Exec (Unit {0})
  ignoring m h = (ok tt, (m h).1)

  -- `defer d()` ahead of `m`: `d` runs when `m` has returned, whatever it returned, and its own
  -- result is dropped.
  unfoldable pub deferring : Exec (Unit {0}) → Exec A → Exec A
  deferring d m h = let (r, h') = m h in (r, (d h').1)

-- `if b { return e }`
unfoldable pub fail_if : Bool → Error → Exec (Unit {0})
unfolding fail pure
fail_if b e = if b then fail e else pure tt

module _ {ℓ κ} {A : Type ℓ} {B : Type κ} where
  abbrev continue : Result A → (A → Exec B) → Exec B
  continue (ok a) f h = f a h
  continue (err e) f h = (err e, h)

  infixl 10 ◌>>=◌ ◌>>◌
  unfoldable pub ◌>>=◌ : Exec A → (A → Exec B) → Exec B
  unfolding pure fail lift
  ◌>>=◌ m f h = let (r, h') = m h in continue r f h'

  abbrev pub ◌>>◌ : Exec A → Exec B → Exec B
  m >> n = m >>= λ _. n

module _ ⦃env : Env⦄ where
  -- One call, its reply recorded.
  unfoldable pub perform : (c : Call) → Exec (Reply c)
  perform c h = let r = env.answer h c in (r, record { call = c; reply = r } ∷ h)

  -- `fmt.Printf`, whose error the source never reads.
  unfoldable pub print : Text → Exec (Unit {0})
  unfolding perform ignoring
  print t = ignoring (perform (print_line t))

  -- `log.Printf`, which returns nothing.
  unfoldable pub log : String → List Arg → Exec (Unit {0})
  unfolding perform ignoring
  log format args = ignoring (perform (log_format format args))

  -- `f, err := open(...); if err != nil { return err }; defer f.Close()`, and what follows.
  unfoldable pub with_file {ℓ} : {A : Type ℓ} → Exec Handle → (Handle → Exec A) → Exec A
  unfolding deferring ignoring perform ◌>>=◌
  with_file opened m = do f ← opened; deferring (ignoring (perform (close f))) (m f)

  -- `d, err := os.MkdirTemp("", prefix); if err != nil { return err }; defer os.RemoveAll(d)`, and
  -- what follows.
  unfoldable pub with_temp {ℓ} : {A : Type ℓ} → Text → (Text → Exec A) → Exec A
  unfolding deferring ignoring perform ◌>>=◌
  with_temp prefix m = do
    d ← perform (mkdir_temp prefix)
    deferring (ignoring (perform (remove_all d))) (m d)
