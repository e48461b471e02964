-- ===== src/Push/Artifact/Layers.antt =====
-- The layers of a manifest, against the flags that asked for them.
use uki.Base.{Text, ascii, List, [], ◌∷◌, ◌++◌, ◌≡◌, length, is_empty, All, arith, if◌then◌else◌}
use uki.FilePath
use uki.Json
use uki.Oci.{Ref, Descriptor}
use uki.Effects.{Env, Event, History, read_file, push_blob}
use uki.Effects.Log.{Occurs, there}
use uki.Push.Closed.{Stored}
use uki.Push.Artifact.{Opts}

-- Where the content of a layer comes from.
pub data Source : Type 0 where
  file : Text → Source
  inline : Text → Source

abbrev pub Gives : Source → Text → History → Type 0
Gives (file path) content h = Occurs (read_file path) content h
Gives (inline text) content h = content ≡ text

-- One flag: its text, where the content is, and the fields of the layer.
pub record Slot : Type 0 where
  pub given : Text
  pub source : Source
  pub media_type : Text
  pub annotations : List (Text × Text)

-- `d` names the content of the slot, which was read and uploaded.
pub record Carries (ref : Ref) (h : History) (s : Slot) (d : Descriptor) : Type 0 where
  pub content : Text
  pub source : Gives s.source content h
  pub uploaded : Occurs (push_blob ref content) d.digest h
  pub sized : d.size ≡ length content
  pub media_type : d.media_type ≡ s.media_type
  pub annotations : d.annotations ≡ s.annotations

-- One layer for each slot, in the same order.
abbrev pub Match : Ref → History → List Slot → List Descriptor → Type 0
Match ref h [] [] = Unit
Match ref h [] (d ∷ ds) = ⊥
Match ref h (s ∷ ss) [] = ⊥
Match ref h (s ∷ ss) (d ∷ ds) = Carries ref h s d × Match ref h ss ds

Gives-later :
    (s : Source) (content : Text) (h : History) (e : Event)
    → Gives s content h
    → Gives s content (e ∷ h)
Gives-later (file path) content h e g = there g
Gives-later (inline text) content h e g = g

pub Carries-later :
    {ref : Ref} {h : History} {s : Slot} {d : Descriptor} (e : Event)
    → Carries ref h s d
    → Carries ref (e ∷ h) s d
Carries-later {h} {s} e c = record {
  content = c.content;
  source = Gives-later s.source c.content h e c.source;
  uploaded = there c.uploaded;
  sized = c.sized;
  media_type = c.media_type;
  annotations = c.annotations;
}

pub Match-later :
    (ref : Ref) (h : History) (ss : List Slot) (ds : List Descriptor) (e : Event)
    → Match ref h ss ds
    → Match ref (e ∷ h) ss ds
Match-later ref h [] [] e m = tt
Match-later ref h [] (d ∷ ds) e m = absurd m
Match-later ref h (s ∷ ss) [] e m = absurd m
Match-later ref h (s ∷ ss) (d ∷ ds) e (c, m) = (Carries-later e c, Match-later ref h ss ds e m)

pub Match-append :
    (ref : Ref) (h : History) (ss : List Slot) (ds : List Descriptor) (s : Slot) (d : Descriptor)
    → Match ref h ss ds
    → Carries ref h s d
    → Match ref h (ss ++ s ∷ []) (ds ++ d ∷ [])
Match-append ref h [] [] s d m c = (c, tt)
Match-append ref h [] (x ∷ ds) s d m c = absurd m
Match-append ref h (t ∷ ss) [] s d m c = absurd m
Match-append ref h (t ∷ ss) (x ∷ ds) s d (b, m) c = (b, Match-append ref h ss ds s d m c)

pub Carries→Stored :
    {ref : Ref} {h : History} {s : Slot} {d : Descriptor} → Carries ref h s d → Stored ref h d
Carries→Stored c = record { content = c.content; uploaded = c.uploaded; sized = c.sized }

-- A matched layer is a stored one.
pub Match→Stored :
    (ref : Ref) (h : History) (ss : List Slot) (ds : List Descriptor)
    → Match ref h ss ds
    → All (Stored ref h) ds
Match→Stored ref h ss [] m = tt
Match→Stored ref h [] (d ∷ ds) m = absurd m
Match→Stored ref h (s ∷ ss) (d ∷ ds) (c, m) = (Carries→Stored c, Match→Stored ref h ss ds m)

-- The slots whose flag was given.
unfoldable pub given_slots : List Slot → List Slot
given_slots [] = []
given_slots (s ∷ ss) = let rest = given_slots ss in if is_empty s.given then rest else s ∷ rest

pub given_slots-snoc :
    (ss : List Slot) (s : Slot)
    → given_slots (ss ++ s ∷ [])
      ≡ (if is_empty s.given then given_slots ss else given_slots ss ++ s ∷ [])
unfolding given_slots
given_slots-snoc [] s = ground arith
given_slots-snoc (t ∷ ss) s = ground (arith, given_slots-snoc ss s)

module _ ⦃env : Env⦄ where
  abbrev pub file_slot : Text → Text → Text → Slot
  file_slot path media_type title = record {
    given = path;
    source = file path;
    media_type = media_type;
    annotations =
        (env.media.annotation_title, title)
        ∷ (ascii "cloudboot.source.basename", FilePath.base path)
        ∷ [];
  }

  abbrev pub cmdline_slot : Text → Slot
  cmdline_slot cmdline = record {
    given = cmdline;
    source = inline cmdline;
    media_type = env.media.cmdline;
    annotations = (env.media.annotation_title, ascii "cmdline") ∷ [];
  }

  -- The JSON of the config.
  abbrev pub config_text : Text → Text → Text
  config_text os_name arch =
      ascii "{\"architecture\":"
      ++ (Json.quoted arch
          ++ (ascii ",\"created\":null,\"os\":" ++ (Json.quoted os_name ++ ascii "}")))

  abbrev pub config_slot : Text → Text → Slot
  config_slot os_name arch = record {
    given = config_text os_name arch;
    source = inline (config_text os_name arch);
    media_type = env.media.config;
    annotations = [];
  }

  -- Every flag that can become a layer, in the order of the layers.
  abbrev pub slots : Opts → List Slot
  slots o =
      file_slot o.kernel env.media.kernel (ascii "vmlinuz")
      ∷ file_slot o.initrd env.media.initrd (ascii "initrd")
      ∷ file_slot o.modules env.media.modules (ascii "modules")
      ∷ file_slot o.modloop env.media.modloop (ascii "modloop")
      ∷ file_slot o.apkovl env.media.apkovl (ascii "apkovl")
      ∷ file_slot o.squashfs env.media.squashfs (ascii "squashfs")
      ∷ cmdline_slot o.cmdline
      ∷ []
