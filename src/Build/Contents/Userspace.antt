-- ===== src/Build/Contents/Userspace.antt =====
-- What `appendBytes` of cmd/cloud-boot/build/build.go adds to the initramfs.
use uki.Base.{Text, is_empty, ◌∷◌, inl, inr, ◌≡◌, false}
use uki.Effects.{
  Env, Event, Handle, History, close, open_read, open_append, copy, perform, ignoring, with_file,
}
use uki.Effects.Hoare.{
  Triple, Triple-any, Triple-bind, Triple-deferring, Triple-if, Triple-ignoring, Triple-log,
  Triple-perform, Triple-pure, Triple-wrapping,
}
use uki.Effects.Log.{Occurs, here, there, OccursWhen, here_when, there_when}
use uki.Build.Images.{append_bytes}
use uki.Build.Pipeline.{append_userspace}
use uki.Build.Contents.{IsPlain, IsAppended, IsAppended-later}

module _ ⦃env : Env⦄ (P : History → Type 0)
    (later : (h : History) (e : Event) → IsPlain e.call → P h → P (e ∷ h)) (path cpio : Text) where
  -- It is as `P` says, and the other file was added.
  abbrev Extended : History → Type 0
  Extended h = P h × IsAppended P path cpio h

  Extended-later : (h : History) (e : Event) → IsPlain e.call → Extended h → Extended (e ∷ h)
  Extended-later h e q (p, a) = (later h e q p, IsAppended-later h e a)

  closed : (f : Handle) → Triple Extended (ignoring (perform (close f))) (λ _. Extended) Extended
  closed f = Triple-ignoring _ (
      Triple-perform (close f) (λ h a x. Extended-later h _ tt x)
        (λ h e x. Extended-later h _ tt x))

  append_bytes-Extended :
      is_empty cpio ≡ false → Triple P (append_bytes path cpio) (λ _. Extended) (λ _. Unit {0})
  unfolding append_bytes with_file
  append_bytes-Extended given =
      Triple-bind (λ input h. P h × Occurs (open_read cpio) input h) _ _
        (Triple-perform (open_read cpio) (λ h input p. (later h _ tt p, here)) (λ h e p. tt))
        (λ input.
          Triple-deferring _ _ (λ _. closed input) (Triple-any _)
            (Triple-bind
              (λ output h.
                P h × Occurs (open_read cpio) input h × OccursWhen P (open_append path) output h)
              _ _
              (Triple-perform (open_append path)
                (λ h output (p, o). (later h _ tt p, there o, here_when p)) (λ h e p. tt))
              (λ output.
                Triple-deferring _ _ (λ _. closed output) (Triple-any _)
                  (Triple-perform (copy output input)
                    (λ h a (p, o, w). (
                      later h _ tt p,
                      inr (
                        given,
                        record {
                          input = input;
                          output = output;
                          opened = there o;
                          extended = there_when w;
                          copied = here;
                        },
                      ),
                    ))
                    (λ h e p. tt)))))

  -- If it returns no error, the file was copied, unless none was given.
  pub append_userspace-Extended :
      Triple P (append_userspace path cpio) (λ _ h. P h × IsAppended P path cpio h) (λ _. Unit {0})
  unfolding append_userspace
  append_userspace-Extended =
      Triple-if (is_empty cpio) _ _ (λ none_given. Triple-pure tt (λ h p. (p, inl none_given)))
        (λ given.
          Triple-bind (λ _. Extended) _ _ (Triple-wrapping _ _ _ (append_bytes-Extended given))
            (λ _. Triple-log _ _ (λ h r x. Extended-later h _ tt x)))
