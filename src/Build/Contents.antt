-- ===== src/Build/Contents.antt =====
-- What is in the initramfs that `Build` makes, from its options on.
pub mod Plain
pub mod Userspace
pub mod Image
pub mod Whole
use uki.Base.{
  Text, ascii, is_empty, String, List, [], ◌∷◌, ◌++◌, ◌≡◌, refl, ◌⊎◌, inl, inr, ◌∙◌, not, ◌&&◌,
  true, false,
}
use uki.FilePath
use uki.Uki
use uki.Build.Cmdline.{build_cmdline}
use uki.Effects.{
  Env, Call, Reply, Result, Event, Exec, History, Handle, cpio_dir, cpio_nod, cpio_file,
  cpio_symlink, read_file, write_file, ok, mkdir_temp, open_read, open_append, copy, remove_all,
  ignoring, perform,
}
use uki.Effects.Hoare.{
  Triple, After, Triple-bind, Triple-perform, Triple-weaken, Triple-if, Triple-pure,
  Triple-wrapping, Triple-deferring,
}
use uki.Effects.Log.{Occurs, there, OccursWhen, there_when}
use uki.Effects.Only.{Only, Only-pure, Only-bind}
use uki.Effects.Only.Growth.{Triple-only, Only-Grows}
use uki.Effects.Grows.{Triple-frame}
use uki.Build.Local.{IsLocal-build_initramfs}
use uki.Base.{ap}
use uki.Effects.Only.Calls.{only}
use uki.Archive.{Written, both, written}
use uki.Build.Opts.{Opts}
use uki.Build.Init.{build_init, locate_init_module}
use uki.Build.Initramfs.{build_initramfs}
use uki.Build.Initramfs.Whole.{Packed, Packed-later}
use uki.Build.Images.{run, truncate, append_bytes, build_esp, build_iso}
use uki.Build.Pipeline.{require_tools, read_optional, append_userspace, assemble, work_dir, build}
use uki.Uki

-- The call writes no entry of an archive.
abbrev pub IsPlain : Call → Type 0
IsPlain (cpio_dir _ _ _) = ⊥
IsPlain (cpio_nod _ _ _ _ _) = ⊥
IsPlain (cpio_file _ _ _ _) = ⊥
IsPlain (cpio_symlink _ _ _ _) = ⊥
IsPlain _ = Unit

pub written-IsPlain :
    (h : History) (c : Call) (r : Result (Reply c))
    → IsPlain c
    → written both (record { call = c; reply = r } ∷ h) ≡ written both h
written-IsPlain h (cpio_dir _ _ _) r p = absurd p
written-IsPlain h (cpio_nod _ _ _ _ _) r p = absurd p
written-IsPlain h (cpio_file _ _ _ _) r p = absurd p
written-IsPlain h (cpio_symlink _ _ _ _) r p = absurd p
written-IsPlain h _ r p = refl

-- The content of a file whose path may be left out.
abbrev pub IsContent : Text → Text → History → Type 0
IsContent path t h =
    (is_empty path ≡ true) × (t ≡ []) ⊎ (is_empty path ≡ false) × Occurs (read_file path) t h

-- The work directory: the one that was given, or a new one.
abbrev pub IsWork : Text → Text → History → Type 0
IsWork given wd h =
    (is_empty given ≡ true) × Occurs (mkdir_temp (ascii "cloud-boot-build-")) wd h
    ⊎ (is_empty given ≡ false) × (wd ≡ given)

-- The files in the work directory.
abbrev pub init_path : Text → Text
init_path wd = FilePath.join (wd ∷ ascii "cloud-boot-init" ∷ [])

abbrev pub archive_path : Text → Text
archive_path wd = FilePath.join (wd ∷ ascii "initramfs.cpio.gz" ∷ [])

-- The file `cpio` was copied to the end of the file `path`, when it was as `P` says.
pub record Copied (P : History → Type 0) (path cpio : Text) (h : History) : Type 0 where
  pub input : Handle
  pub output : Handle
  pub opened : Occurs (open_read cpio) input h
  pub extended : OccursWhen P (open_append path) output h
  pub copied : Occurs (copy output input) tt h

abbrev pub IsAppended : (History → Type 0) → Text → Text → History → Type 0
IsAppended P path cpio h = (is_empty cpio ≡ true) ⊎ (is_empty cpio ≡ false) × Copied P path cpio h

-- The initramfs in `wd` got the init program that was compiled, the key and the plan of the
-- options, and then the archive of the options.
pub record Filled ⦃env : Env⦄ (o : Opts) (wd : Text) (before : List Written) (h : History)
    : Type 0 where
  pub key : Text
  pub plan : Text
  pub key_read : IsContent o.cosign_key key h
  pub plan_read : IsContent o.plan_file plan h
  pub packed : Packed (init_path wd) (archive_path wd) key plan before h
  pub userspace :
      IsAppended
        (Packed (init_path wd) (archive_path wd) key plan before)
        (archive_path wd)
        o.zfs_userspace_cpio
        h

-- The image was made with its initrd, which was read when it was as `P` says, and written to `out`.
pub record Shipped ⦃env : Env⦄ (P : History → Type 0) (s : Uki.Sections) (out : Text) (h : History)
    : Type 0 where
  pub stub : Text
  pub linux : Text
  pub initrd : Text
  pub image : Text
  pub stub_read : Occurs (read_file s.stub) stub h
  pub linux_read : Occurs (read_file s.linux) linux h
  pub initrd_read : OccursWhen P (read_file s.initrd) initrd h
  pub appended : env.append_sections stub (Uki.sections_of s linux initrd) ≡ ok image
  pub stored : Occurs (write_file out image 0o644) tt h

-- What `Build` gives to `uki.Build`.
abbrev pub sections : Opts → Text → Uki.Sections
sections o wd = record {
  stub = o.stub;
  linux = o.kernel;
  initrd = archive_path wd;
  cmdline = build_cmdline o;
  os_rel = [];
  uname = o.uname;
}

abbrev pub IsShipped : ⦃env : Env⦄ → Opts → Text → List Written → History → Type 0
IsShipped o wd before =
    Shipped (Filled o wd before) (sections o wd) (FilePath.join (wd ∷ o.arch.efi_name ∷ []))

pub record Contents ⦃env : Env⦄ (o : Opts) (before : List Written) (h : History) : Type 0 where
  pub work : Text
  pub placed : IsWork o.work_dir work h
  pub filled : Filled o work before h
  pub shipped : IsShipped o work before h

pub IsContent-later :
    {path t : Text} (h : History) (e : Event) → IsContent path t h → IsContent path t (e ∷ h)
IsContent-later h e (inl c) = inl c
IsContent-later h e (inr (s, o)) = inr (s, there o)

pub IsWork-later :
    {given wd : Text} (h : History) (e : Event) → IsWork given wd h → IsWork given wd (e ∷ h)
IsWork-later h e (inl (s, o)) = inl (s, there o)
IsWork-later h e (inr p) = inr p

pub IsAppended-later :
    {P : History → Type 0} {path cpio : Text} (h : History) (e : Event)
    → IsAppended P path cpio h
    → IsAppended P path cpio (e ∷ h)
IsAppended-later h e (inl s) = inl s
IsAppended-later h e (inr (s, c)) = inr (
  s,
  record {
    input = c.input;
    output = c.output;
    opened = there c.opened;
    extended = there_when c.extended;
    copied = there c.copied;
  },
)

pub Shipped-later :
    ⦃env : Env⦄ {P : History → Type 0} {s : Uki.Sections} {out : Text} (h : History) (e : Event)
    → Shipped P s out h
    → Shipped P s out (e ∷ h)
Shipped-later h e x = record {
  stub = x.stub;
  linux = x.linux;
  initrd = x.initrd;
  image = x.image;
  stub_read = there x.stub_read;
  linux_read = there x.linux_read;
  initrd_read = there_when x.initrd_read;
  appended = x.appended;
  stored = there x.stored;
}

module _ ⦃env : Env⦄ (o : Opts) (l : List Written) where
  pub Filled-later :
      (wd : Text) (h : History) (e : Event)
      → IsPlain e.call
      → Filled o wd l h
      → Filled o wd l (e ∷ h)
  Filled-later wd h e p c = record {
    key = c.key;
    plan = c.plan;
    key_read = IsContent-later h e c.key_read;
    plan_read = IsContent-later h e c.plan_read;
    packed = Packed-later _ _ _ _ l h e (written-IsPlain h e.call e.reply p) c.packed;
    userspace = IsAppended-later h e c.userspace;
  }

  pub Contents-later :
      (h : History) (e : Event) → IsPlain e.call → Contents o l h → Contents o l (e ∷ h)
  Contents-later h e p c = record {
    work = c.work;
    placed = IsWork-later h e c.placed;
    filled = Filled-later c.work h e p c.filled;
    shipped = Shipped-later h e c.shipped;
  }
