-- ===== src/Push/Closed.antt =====
-- What the history shows of the registry: which content a descriptor stands for, and what was
-- published.
use uki.Base.{ℕ, suc, Text, [], ◌∷◌, ◌≡◌, ◌∙◌, All, some, length}
use uki.Oci.{Ref, Descriptor, Platform}
use uki.Effects.{
  Call, Reply, Result, ok, Event, History, push_blob, push_manifest, push_index, describe_manifest,
}
use uki.Effects.Log.{Occurs, there}

-- The content that `d` names was uploaded to the repository, with its digest and its size.
pub record Stored (ref : Ref) (h : History) (d : Descriptor) : Type 0 where
  pub content : Text
  pub uploaded : Occurs (push_blob ref content) d.digest h
  pub sized : d.size ≡ length content

-- `d` is what the registry said of some manifest, but for the platform.
pub record Described (h : History) (d : Descriptor) : Type 0 where
  pub ref : Ref
  pub platform : Platform
  pub found : Descriptor
  pub asked : Occurs (describe_manifest ref) found h
  pub stamped : d ≡ record found { platform = some platform }

-- A call refers only to what the calls before it, `h`, have made known.
abbrev pub IsBacked : Call → History → Type 0
IsBacked (push_manifest ref m) h = Stored ref h m.config × All (Stored ref h) m.layers
IsBacked (push_index ref idx) h = All (Described h) idx.manifests
IsBacked _ h = Unit

-- Every manifest refers to blobs that were uploaded before it, and every index to manifests that
-- the registry had described before.
abbrev pub IsClosed : History → Type 0
IsClosed [] = Unit
IsClosed (e ∷ h) = IsBacked e.call h × IsClosed h

abbrev count_manifest : (c : Call) → Result (Reply c) → ℕ → ℕ
count_manifest (push_manifest _ _) (ok _) n = suc n
count_manifest _ _ n = n

abbrev count_index : (c : Call) → Result (Reply c) → ℕ → ℕ
count_index (push_index _ _) (ok _) n = suc n
count_index _ _ n = n

-- How many manifests and how many indexes the registry has accepted.
abbrev pub manifests : History → ℕ
manifests [] = 0
manifests (e ∷ h) = count_manifest e.call e.reply (manifests h)

abbrev pub indexes : History → ℕ
indexes [] = 0
indexes (e ∷ h) = count_index e.call e.reply (indexes h)

-- A closed history in which `n` manifests and `k` indexes were accepted.
pub record Accepted (n k : ℕ) (h : History) : Type 0 where
  pub closed : IsClosed h
  pub manifests : manifests h ≡ n
  pub indexes : indexes h ≡ k

-- One more call that publishes nothing.
pub Accepted-later :
    {n k : ℕ} {h : History} (e : Event)
    → IsBacked e.call h
    → manifests (e ∷ h) ≡ manifests h
    → indexes (e ∷ h) ≡ indexes h
    → Accepted n k h
    → Accepted n k (e ∷ h)
Accepted-later e b m i a = record {
  closed = (b, a.closed);
  manifests = m ∙ a.manifests;
  indexes = i ∙ a.indexes;
}

pub Stored-later :
    {ref : Ref} {h : History} {d : Descriptor} (e : Event) → Stored ref h d → Stored ref (e ∷ h) d
Stored-later e s = record { content = s.content; uploaded = there s.uploaded; sized = s.sized }
