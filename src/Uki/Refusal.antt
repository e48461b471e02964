-- ===== src/Uki/Refusal.antt =====
-- When `Build` of internal/uki/uki.go returns an error.
use uki.Base.{
  ℕ, ◌+◌, ◌≤◌, ◌⊎◌, inl, inr, refl, Text, ascii, is_empty, [], ◌∷◌, ◌++◌, ◌≡◌, arith, if◌then◌else◌,
}
use uki.Uki
use uki.Effects.{Env, Event, History, Exec, Result, Error, ok, err, read_file, lift}
use uki.Effects.Hoare.{Triple, After, Triple-bind, Triple-perform, Triple-wrapping}
use uki.Effects.Log.{Occurs, here, there}
use uki.Effects.Faults.{failures, failed, IsHonest}
use uki.Effects.Faults.Calls.{IsHonest-write_file}

-- The appender refuses the stub with these sections, and what it was given had been read.
pub record RefusedFor ⦃env : Env⦄ (s : Uki.Sections) (h : History) : Type 0 where
  pub stub : Text
  pub linux : Text
  pub initrd : Text
  pub error : Error
  pub stub_read : Occurs (read_file s.stub) stub h
  pub linux_read : Occurs (read_file s.linux) linux h
  pub initrd_read : Occurs (read_file s.initrd) initrd h
  pub refused :
      env.append_sections stub (
        record {
          name = ascii ".osrel";
          contents =
              if is_empty s.os_rel
              then ascii "ID=cloud-boot\nNAME=cloud-boot\nVERSION_ID=1\n"
              else s.os_rel;
        }
        ∷ record { name = ascii ".cmdline"; contents = s.cmdline ++ ascii "\n" }
        ∷ record { name = ascii ".uname"; contents = s.uname ++ ascii "\n" }
        ∷ record { name = ascii ".linux"; contents = linux }
        ∷ record { name = ascii ".initrd"; contents = initrd }
        ∷ [])
      ≡ err error

pub RefusedFor-later :
    ⦃env : Env⦄ {s : Uki.Sections} {h : History} (e : Event) → RefusedFor s h → RefusedFor s (e ∷ h)
RefusedFor-later e r = record {
  stub = r.stub;
  linux = r.linux;
  initrd = r.initrd;
  error = r.error;
  stub_read = there r.stub_read;
  linux_read = there r.linux_read;
  initrd_read = there r.initrd_read;
  refused = r.refused;
}

-- The error of a result is known too.
Triple-lift_cases {ℓ} :
    {A : Type ℓ} {P E : History → Type 0} {Q : A → History → Type 0} (r : Result A)
    → ((h : History) (a : A) → r ≡ ok a → P h → Q a h)
    → ((h : History) (x : Error) → r ≡ err x → P h → E h)
    → Triple P (lift r) Q E
unfolding lift
Triple-lift_cases (ok a) q e = record { at = λ h p. q h a refl p }
Triple-lift_cases (err x) q e = record { at = λ h p. e h x refl p }

module _ ⦃env : Env⦄ (n : ℕ) where
  abbrev pub AtLeast : History → Type 0
  AtLeast h = n ≤ failures h

  abbrev pub Excused : (History → Type 0) → History → Type 0
  Excused R h = (n + 1 ≤ failures h) ⊎ R h

  -- An honest action fails with a call.
  pub Triple-honest {ℓ} :
      {A : Type ℓ} (R : History → Type 0) (m : Exec A)
      → IsHonest m
      → Triple AtLeast m (λ (_ : A). AtLeast) (Excused R)
  Triple-honest {A} R m b = record { at = λ h le. go (m h) (omega (arith, b.at h, le)) }
    where
      go :
          (o : Result A × History)
          → n + failed o.0 ≤ failures o.1
          → After (λ (_ : A). AtLeast) (Excused R) o
      go (ok a, h) l = omega (arith, l)
      go (err e, h) l = inl l

  appended-Excused :
      (s : Uki.Sections) (stub linux initrd : Text)
      → Triple
          (λ h.
            Occurs (read_file s.stub) stub h
            × Occurs (read_file s.linux) linux h
            × Occurs (read_file s.initrd) initrd h
            × AtLeast h)
          (lift (env.append_sections stub (Uki.sections_of s linux initrd)))
          (λ _. AtLeast)
          (Excused (RefusedFor s))
  unfolding Uki.sections_of Uki.default_os_rel
  appended-Excused s stub linux initrd =
      Triple-lift_cases _ (λ h a _ (o, p, q, e). e)
        (λ h x refused (o, p, q, e). inr (record {
          stub = stub;
          linux = linux;
          initrd = initrd;
          error = x;
          stub_read = o;
          linux_read = p;
          initrd_read = q;
          refused = refused;
        }))

  pub uki-Excused :
      (s : Uki.Sections) (out : Text)
      → Triple AtLeast (Uki.build s out) (λ _. AtLeast) (Excused (RefusedFor s))
  unfolding Uki.build Uki.sections_of Uki.default_os_rel
  uki-Excused s out =
      Triple-bind (λ stub h. Occurs (read_file s.stub) stub h × AtLeast h) _ _
        (Triple-wrapping _ _ _ (
          Triple-perform (read_file s.stub) (λ h a e. (here, omega (arith, e)))
            (λ h x e. inl (omega (arith, e)))))
        (λ stub.
          Triple-bind
            (λ linux h.
              Occurs (read_file s.stub) stub h × Occurs (read_file s.linux) linux h × AtLeast h)
            _ _
            (Triple-wrapping _ _ _ (
              Triple-perform (read_file s.linux) (λ h a (o, e). (there o, here, omega (arith, e)))
                (λ h x (o, e). inl (omega (arith, e)))))
            (λ linux.
              Triple-bind
                (λ initrd h.
                  Occurs (read_file s.stub) stub h
                  × Occurs (read_file s.linux) linux h
                  × Occurs (read_file s.initrd) initrd h
                  × AtLeast h)
                _ _
                (Triple-wrapping _ _ _ (
                  Triple-perform (read_file s.initrd)
                    (λ h a (o, p, e). (there o, there p, here, omega (arith, e)))
                    (λ h x (o, p, e). inl (omega (arith, e)))))
                (λ initrd.
                  Triple-bind (λ _. AtLeast) _ _
                    (Triple-wrapping _ _ _ (appended-Excused s stub linux initrd))
                    (λ image. Triple-honest _ _ (IsHonest-write_file _ _ _)))))
