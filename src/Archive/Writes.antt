-- ===== src/Archive/Writes.antt =====
-- Rules for the entries that an action writes.
use uki.Base.{ℕ, Text, List, [], ◌∷◌, ◌++◌, ◌≡◌, ◌∙◌, append_assoc, append-nil}
use uki.Effects.{
  Result, ok, Call, Reply, Handle, Exec, Env, pure, ◌>>=◌, perform, cpio_dir, cpio_nod, cpio_file,
  cpio_symlink,
}
use uki.Effects.Hoare.{Triple, Triple-pure, Triple-bind, Triple-perform, Triple-weaken}
use uki.Archive.{Entry, dir, node, file, link, written, note}

module _ {X : Type 0} (view : Handle → Entry → X) where
  -- If `m` returns no error, it has written `es`.
  pub record Writes {ℓ} {A : Type ℓ} (es : List X) (m : Exec A) : Type ℓ where
    pub at :
        (l : List X)
        → Triple (λ h. written view h ≡ l) m (λ _ h. written view h ≡ l ++ es) (λ _. Unit {0})

  pub Writes-pure {ℓ} : {A : Type ℓ} (a : A) → Writes [] (pure a)
  Writes-pure a = record { at = λ l. Triple-pure a (λ h e. rw append-nil e) }

  pub Writes-bind {ℓ κ} :
      {A : Type ℓ} {B : Type κ} {es fs : List X} (m : Exec A) (f : A → Exec B)
      → Writes es m
      → ((a : A) → Writes fs (f a))
      → Writes (es ++ fs) (m >>= f)
  Writes-bind {es} {fs} m f wm wf = record {
    at = λ l.
        Triple-bind (λ _ h. written view h ≡ l ++ es) m f (wm.at l)
          (λ a.
            Triple-weaken _ ((wf a).at (l ++ es)) (λ h q. q) (λ _ h q. q ∙ append_assoc l es fs)
              (λ h u. u));
  }

  module _ ⦃env : Env⦄ where
    pub Writes-quiet :
        (c : Call)
        → ((r : Result (Reply c)) (l : List X) → note view c r l ≡ l)
        → Writes [] (perform c)
    Writes-quiet c q = record {
      at = λ l. Triple-perform c (λ h a e. rw append-nil (q (ok a) _ ∙ e)) (λ h x e. tt);
    }

    pub Writes-dir :
        (w : Handle) (n : Text) (m : ℕ) → Writes (view w (dir n m) ∷ []) (perform (cpio_dir w n m))
    Writes-dir w n m = record {
      at = λ l. Triple-perform (cpio_dir w n m) (λ h a e. rw e) (λ h x e. tt);
    }

    pub Writes-node :
        (w : Handle) (n : Text) (m a b : ℕ)
        → Writes (view w (node n m a b) ∷ []) (perform (cpio_nod w n m a b))
    Writes-node w n m a b = record {
      at = λ l. Triple-perform (cpio_nod w n m a b) (λ h _ e. rw e) (λ h x e. tt);
    }

    pub Writes-file :
        (w : Handle) (n : Text) (m : ℕ) (t : Text)
        → Writes (view w (file n m t) ∷ []) (perform (cpio_file w n m t))
    Writes-file w n m t = record {
      at = λ l. Triple-perform (cpio_file w n m t) (λ h _ e. rw e) (λ h x e. tt);
    }

    pub Writes-link :
        (w : Handle) (n t : Text) (m : ℕ)
        → Writes (view w (link n t m) ∷ []) (perform (cpio_symlink w n t m))
    Writes-link w n t m = record {
      at = λ l. Triple-perform (cpio_symlink w n t m) (λ h _ e. rw e) (λ h x e. tt);
    }
