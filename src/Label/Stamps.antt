-- ===== src/Label/Stamps.antt =====
-- Which labels `label` writes.
use uki.Base.{Text, List, [], ◌∷◌, ◌++◌, ◌≡◌, refl}
use uki.Effects.{
  Env, History, Call, Reply, Result, ok, ℤ, ext4_label, set_ext4_label, print_format, print_line,
  print,
}
use uki.Effects.Hoare.{Triple, After, Triple-bind, Triple-perform, Triple-ignoring}
use uki.Label.{read, stamp, run}

-- A label, with the image and the partition that it was written to.
pub record Stamp : Type 0 where
  pub image : Text
  pub part : ℤ
  pub label : Text

abbrev note : (c : Call) → Result (Reply c) → List Stamp → List Stamp
note (set_ext4_label image part label) (ok _) l =
    record { image = image; part = part; label = label } ∷ l
note _ _ l = l

-- The labels that were written, the latest first.
abbrev pub stamps : History → List Stamp
stamps [] = []
stamps (e ∷ h) = note e.call e.reply (stamps h)

-- What the arguments behind the image ask for.
pub requested : ℤ → Text → List Text → List Stamp
requested part image [] = []
requested part image (label ∷ _) = record { image = image; part = part; label = label } ∷ []

module _ ⦃env : Env⦄ (part : ℤ) (image : Text) (l : List Stamp) where
  read-stamps :
      Triple (λ h. stamps h ≡ l) (read image part) (λ _ h. stamps h ≡ l) (λ h. stamps h ≡ l)
  unfolding read print
  read-stamps =
      Triple-bind (λ _ h. stamps h ≡ l) _ _
        (Triple-perform (ext4_label image part) (λ h a e. e) (λ h x e. e))
        (λ label. Triple-ignoring _ (Triple-perform (print_line _) (λ h a e. e) (λ h x e. e)))

  stamp-stamps :
      (label : Text)
      → Triple
          (λ h. stamps h ≡ l)
          (stamp image part label)
          (λ _ h. stamps h ≡ record { image = image; part = part; label = label } ∷ l)
          (λ h. stamps h ≡ l)
  unfolding stamp
  stamp-stamps label =
      Triple-bind (λ _ h. stamps h ≡ record { image = image; part = part; label = label } ∷ l) _ _
        (Triple-perform (set_ext4_label image part label) (λ h a e. rw e) (λ h x e. e))
        (λ _. Triple-ignoring _ (Triple-perform (print_format _ _) (λ h a e. e) (λ h x e. e)))

-- If `label` returns no error, it has written the new label to the partition of the image, once, if
-- it was given one, and no label otherwise, whether or not its message could be printed. If it
-- returns an error, it has written no label.
pub label_run-stamps :
    ⦃env : Env⦄ (part : ℤ) (image : Text) (args : List Text) (h : History)
    → After
        (λ _ h'. stamps h' ≡ requested part image args ++ stamps h)
        (λ h'. stamps h' ≡ stamps h)
        (run part image args h)
unfolding run requested
label_run-stamps part image [] h = (read-stamps part image (stamps h)).at h refl
label_run-stamps part image (label ∷ _) h = (stamp-stamps part image (stamps h) label).at h refl
