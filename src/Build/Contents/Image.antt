-- ===== src/Build/Contents/Image.antt =====
-- The image that `uki.Build` makes from what stands in its initrd.
use uki.Base.{Text, [], ◌∷◌, ◌≡◌}
use uki.Effects.{wrapping, lift, perform, ◌>>=◌, Env, Event, History, ok, read_file, write_file}
use uki.Effects.Hoare.{Triple, Triple-bind, Triple-lift, Triple-perform, Triple-wrapping}
use uki.Effects.Log.{Occurs, here, there, OccursWhen, here_when, there_when}
use uki.Uki
use uki.Build.Contents.{IsPlain, Shipped}

module _ ⦃env : Env⦄ (P : History → Type 0)
    (later : (h : History) (e : Event) → IsPlain e.call → P h → P (e ∷ h)) where
  -- From the appender on.
  image-Shipped :
      (s : Uki.Sections) (out stub linux initrd : Text)
      → Triple
          (λ h.
            P h
            × Occurs (read_file s.stub) stub h
            × Occurs (read_file s.linux) linux h
            × OccursWhen P (read_file s.initrd) initrd h)
          (wrapping "uki: %w" [] (lift (env.append_sections stub (Uki.sections_of s linux initrd)))
            >>= λ image. perform (write_file out image 0o644))
          (λ _ h. P h × Shipped P s out h)
          (λ _. Unit {0})
  image-Shipped s out stub linux initrd =
      Triple-bind
        (λ image h.
          (P h
            × Occurs (read_file s.stub) stub h
            × Occurs (read_file s.linux) linux h
            × OccursWhen P (read_file s.initrd) initrd h)
          × (env.append_sections stub (Uki.sections_of s linux initrd) ≡ ok image))
        _ _ (Triple-wrapping _ _ _ (Triple-lift _ (λ h image e p. (p, e)) (λ h u. tt)))
        (λ image.
          Triple-perform (write_file out image 0o644)
            (λ h a ((p, q, r, o), e). (
              later h _ tt p,
              record {
                stub = stub;
                linux = linux;
                initrd = initrd;
                image = image;
                stub_read = there q;
                linux_read = there r;
                initrd_read = there_when o;
                appended = e;
                stored = here;
              },
            ))
            (λ h e u. tt))

  pub build-Shipped :
      (s : Uki.Sections) (out : Text)
      → Triple P (Uki.build s out) (λ _ h. P h × Shipped P s out h) (λ _. Unit {0})
  unfolding Uki.build
  build-Shipped s out =
      Triple-bind (λ stub h. P h × Occurs (read_file s.stub) stub h) _ _
        (Triple-wrapping _ _ _
          (Triple-perform (read_file s.stub) (λ h a p. (later h _ tt p, here)) (λ h e p. tt)))
        (λ stub.
          Triple-bind
            (λ linux h. P h × Occurs (read_file s.stub) stub h × Occurs (read_file s.linux) linux h)
            _ _
            (Triple-wrapping _ _ _ (
              Triple-perform (read_file s.linux) (λ h a (p, q). (later h _ tt p, there q, here))
                (λ h e p. tt)))
            (λ linux.
              Triple-bind
                (λ initrd h.
                  P h
                  × Occurs (read_file s.stub) stub h
                  × Occurs (read_file s.linux) linux h
                  × OccursWhen P (read_file s.initrd) initrd h)
                _ _
                (Triple-wrapping _ _ _ (
                  Triple-perform (read_file s.initrd)
                    (λ h a (p, q, r). (later h _ tt p, there q, there r, here_when p))
                    (λ h e p. tt)))
                (λ initrd. image-Shipped s out stub linux initrd)))
