-- ===== src/Push/Artifact/Staged.antt =====
-- What `Run` of `push artifact` has done while it pushes the layers.
use uki.Base.{ℕ, Text, List, [], ◌∷◌, ◌++◌, ◌≡◌, refl, is_empty}
use uki.Oci.{Ref, Descriptor}
use uki.Effects.{Env, History, Result, ok, err, read_file, push_blob}
use uki.Effects.Hoare.{Triple, Triple-pure, Triple-wrapping, Triple-bind, Triple-perform, Triple-if}
use uki.Effects.Log.{Occurs, here, there}
use uki.Push.Closed.{Accepted, Accepted-later}
use uki.Push.Artifact.{push_file, add, add_cmdline}
use uki.Push.Artifact.Layers.{
  Slot, Carries, Carries-later, Match, Match-later, Match-append, given_slots, given_slots-snoc,
  file_slot, cmdline_slot,
}

-- Between two layers: the config is uploaded, and so is one layer for each slot in `ss`.
pub record Staged (n k : ℕ) (ref : Ref) (cs : Slot) (config : Descriptor) (ss : List Slot)
    (ds : List Descriptor) (h : History) : Type 0 where
  pub accepted : Accepted n k h
  pub configured : Carries ref h cs config
  pub matched : Match ref h ss ds

module _ ⦃env : Env⦄ (n k : ℕ) (ref : Ref) where
  abbrev pub Kept : History → Type 0
  Kept = Accepted n k

  pub quiet_read :
      {h : History} (path : Text) (r : Result Text)
      → Kept h
      → Kept (record { call = read_file path; reply = r } ∷ h)
  quiet_read path r a = Accepted-later _ tt refl refl a

  pub quiet_blob :
      {h : History} (content : Text) (r : Result Text)
      → Kept h
      → Kept (record { call = push_blob ref content; reply = r } ∷ h)
  quiet_blob content r a = Accepted-later _ tt refl refl a

  module _ (cs : Slot) (config : Descriptor) (ss : List Slot) (ds : List Descriptor) where
    read-Staged :
        {h : History} (path : Text) (content : Text)
        → Staged n k ref cs config ss ds h
        → Staged n k ref cs config ss ds (record { call = read_file path; reply = ok content } ∷ h)
    read-Staged {h} path content s = record {
      accepted = quiet_read path (ok content) s.accepted;
      configured = Carries-later _ s.configured;
      matched = Match-later ref h ss ds _ s.matched;
    }

    blob-Staged :
        {h : History} (content : Text) (d : Text)
        → Staged n k ref cs config ss ds h
        → Staged n k ref cs config ss ds (record { call = push_blob ref content; reply = ok d } ∷ h)
    blob-Staged {h} content d s = record {
      accepted = quiet_blob content (ok d) s.accepted;
      configured = Carries-later _ s.configured;
      matched = Match-later ref h ss ds _ s.matched;
    }

    push_file-Carries :
        (path media_type title : Text)
        → Triple
            (Staged n k ref cs config ss ds)
            (push_file ref path media_type title)
            (λ d h.
              Staged n k ref cs config ss ds h × Carries ref h (file_slot path media_type title) d)
            Kept
    unfolding push_file
    push_file-Carries path media_type title =
        Triple-bind
          (λ content h. Staged n k ref cs config ss ds h × Occurs (read_file path) content h) _ _
          (Triple-wrapping _ _ _ (
            Triple-perform (read_file path) (λ h content s. (read-Staged path content s, here))
              (λ h e s. quiet_read path (err e) s.accepted)))
          (λ content.
            Triple-bind
              (λ digest h.
                Staged n k ref cs config ss ds h
                × Occurs (read_file path) content h
                × Occurs (push_blob ref content) digest h)
              _ _
              (Triple-wrapping _ _ _ (
                Triple-perform (push_blob ref content)
                  (λ h d (s, r). (blob-Staged content d s, there r, here))
                  (λ h e (s, r). quiet_blob content (err e) s.accepted)))
              (λ digest. Triple-pure _ (λ h (s, r, u). (
                s,
                record {
                  content = content;
                  source = r;
                  uploaded = u;
                  sized = refl;
                  media_type = refl;
                  annotations = refl;
                },
              ))))

    Staged-append :
        (h : History) (d : Descriptor) (s : Slot)
        → Staged n k ref cs config ss ds h
        → Carries ref h s d
        → Staged n k ref cs config (ss ++ s ∷ []) (ds ++ d ∷ []) h
    Staged-append h d s g c = record {
      accepted = g.accepted;
      configured = g.configured;
      matched = Match-append ref h ss ds s d g.matched c;
    }

    pub add-Staged :
        (l : List Slot) (path media_type title : Text)
        → ss ≡ given_slots l
        → Triple
            (Staged n k ref cs config ss ds)
            (add ref path media_type title ds)
            (λ ds' h.
              Staged n k ref cs config
                (given_slots (l ++ file_slot path media_type title ∷ []))
                ds'
                h)
            Kept
    unfolding add
    add-Staged l path media_type title e =
        Triple-if (is_empty path) _ _
          (λ unset. Triple-pure ds (λ h s. rw (given_slots-snoc, unset, ← e) s))
          (λ set. Triple-bind _ _ _ (push_file-Carries path media_type title) (λ d.
            Triple-pure _ (λ h (s, c). rw (given_slots-snoc, set, ← e) (Staged-append h d _ s c))))

    pub add_cmdline-Staged :
        (l : List Slot) (cmdline : Text)
        → ss ≡ given_slots l
        → Triple
            (Staged n k ref cs config ss ds)
            (add_cmdline ref cmdline ds)
            (λ ds' h. Staged n k ref cs config (given_slots (l ++ cmdline_slot cmdline ∷ [])) ds' h)
            Kept
    unfolding add_cmdline
    add_cmdline-Staged l cmdline e =
        Triple-if (is_empty cmdline) _ _
          (λ unset. Triple-pure ds (λ h s. rw (given_slots-snoc, unset, ← e) s))
          (λ set.
            Triple-bind
              (λ digest h.
                Staged n k ref cs config ss ds h × Occurs (push_blob ref cmdline) digest h)
              _ _
              (Triple-wrapping _ _ _ (
                Triple-perform (push_blob ref cmdline) (λ h d s. (blob-Staged cmdline d s, here))
                  (λ h e s. quiet_blob cmdline (err e) s.accepted)))
              (λ digest. Triple-pure _ (λ h (s, u).
                rw (given_slots-snoc, set, ← e)
                  (Staged-append h _ _ s (record {
                    content = cmdline;
                    source = refl;
                    uploaded = u;
                    sized = refl;
                    media_type = refl;
                    annotations = refl;
                  })))))
