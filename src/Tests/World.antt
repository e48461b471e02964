-- ===== src/Tests/World.antt =====
-- A world in which every call succeeds.
use uki.Base.{ascii, [], ◌++◌, true, is_empty, if◌then◌else◌}
use uki.Oci.{MediaTypes}
use uki.Push.Registry.{descriptor}
use uki.Effects.{
  Env, Call, Reply, Result, ok, err, external, directory, regular, symlink, entry, end, mkdir_temp,
  stat, permissions, read_link, read_file, create, open_read, open_append, gzip_writer, buffer,
  buffer_bytes, cpio_writer, push_blob, push_manifest, push_index, describe_manifest, ext4_label,
}

abbrev answers : (c : Call) → Result (Reply c)
answers (mkdir_temp p) = ok (p ++ ascii "1")
answers (stat _) = ok true
answers (permissions _) = ok 0o644
answers (read_link _) = ok (ascii "target")
answers (read_file p) = ok (ascii "content of " ++ p)
answers (create _) = ok 3
answers (open_read _) = ok 4
answers (open_append _) = ok 5
answers (gzip_writer _) = ok 6
answers buffer = ok 7
answers (buffer_bytes _) = ok (ascii "archive")
answers (cpio_writer _) = ok 8
answers (push_blob _ t) = ok (ascii "sha256:" ++ t)
answers (push_manifest _ _) = ok (ascii "sha256:manifest")
answers (push_index _ _) = ok (ascii "sha256:index")
answers (describe_manifest _) = ok (descriptor (ascii "manifest") (ascii "sha256:manifest") 7 [])
answers (ext4_label _ _) = ok (ascii "rootfs")
answers _ = ok tt

abbrev pub media : MediaTypes
media = record {
  config = ascii "config";
  plan = ascii "plan";
  kernel = ascii "kernel";
  initrd = ascii "initrd";
  modules = ascii "modules";
  modloop = ascii "modloop";
  apkovl = ascii "apkovl";
  squashfs = ascii "squashfs";
  cmdline = ascii "cmdline";
  image_manifest = ascii "image-manifest";
  image_index = ascii "image-index";
  annotation_title = ascii "title";
}

abbrev pub world : Env
world = record {
  answer = λ h c. answers c;
  getenv = λ name. [];
  environ = [];
  parse_ref = λ t.
      if is_empty t
      then err (external 0)
      else ok
          (record { scheme = ascii "https"; host = ascii "host"; repo = ascii "r"; reference = t });
  append_sections = λ stub sections. ok stub;
  tree = λ src. directory (entry (ascii "a.ko") regular (entry (ascii "build") symlink end));
  media = media;
}
