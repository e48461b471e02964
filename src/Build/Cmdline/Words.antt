-- ===== src/Build/Cmdline/Words.antt =====
-- The kernel command line as a list of words.
use uki.Base.{
  ℕ, Text, Bool, true, false, ascii, is_empty, is_set, not, List, [], ◌∷◌, ◌++◌, ◌≡◌, refl, sym,
  ◌∙◌, ap, append_assoc, append-nil, if◌then◌else◌,
}
use uki.Build.Opts.{Opts}
use uki.Build.Cmdline.{join_onto, join_words, cmdline_parts, build_cmdline}

-- The words, each behind a space.
pub spaced_tail : List Text → Text
spaced_tail [] = []
spaced_tail (w ∷ ws) = ascii " " ++ (w ++ spaced_tail ws)

-- The words, with one space between two of them.
pub spaced : List Text → Text
spaced [] = []
spaced (w ∷ ws) = w ++ spaced_tail ws

pub nonempty : List Text → List Text
nonempty [] = []
nonempty (w ∷ ws) = let rest = nonempty ws in if is_empty w then rest else w ∷ rest

join_onto-cons :
    (c : ℕ) (out : Text) (p : List Text)
    → join_onto (c ∷ out) p ≡ (c ∷ out) ++ spaced_tail (nonempty p)
unfolding join_onto spaced_tail nonempty
join_onto-cons c out [] = rw append-nil
join_onto-cons c out ([] ∷ p) = join_onto-cons c out p
join_onto-cons c out ((d ∷ w) ∷ p) =
    join_onto-cons c ((out ++ ascii " ") ++ d ∷ w) p ∙ ap (λ t. c ∷ t) (simp (append_assoc))

-- `joinWords` drops the empty words and puts one space between the others, none at the ends.
pub join_words_lem : (p : List Text) → join_words p ≡ spaced (nonempty p)
unfolding join_words join_onto spaced nonempty
join_words_lem [] = refl
join_words_lem ([] ∷ p) = join_words_lem p
join_words_lem ((d ∷ w) ∷ p) = join_onto-cons d w p

-- A word that stands in the command line if its flag was given.
abbrev pub word : Bool → Text → List Text
word b w = if b then w ∷ [] else []

-- The words that the flags ask for.
pub cmdline_words : Opts → List Text
cmdline_words o =
    word (is_set o.cmdline) o.cmdline
    ++ (word (not o.verbose) (ascii "quiet")
        ++ (word (is_set o.plan_ref) (ascii "cloudboot.plan=" ++ o.plan_ref)
            ++ (word (is_set o.image) (ascii "cloudboot.image=" ++ o.image)
                ++ (word (is_set o.target) (ascii "cloudboot.target=" ++ o.target)
                    ++ (word o.insec (ascii "cloudboot.insecure=1")
                        ++ word (is_set o.extra) o.extra)))))

nonempty-append : (a b : List Text) → nonempty (a ++ b) ≡ nonempty a ++ nonempty b
unfolding nonempty
nonempty-append [] b = refl
nonempty-append ([] ∷ a) b = nonempty-append a b
nonempty-append ((c ∷ w) ∷ a) b = ap (λ t. (c ∷ w) ∷ t) (nonempty-append a b)

nonempty-if :
    (b : Bool) (s : Text) (parts : List Text)
    → nonempty (if b then parts ++ s ∷ [] else parts) ≡ nonempty parts ++ nonempty (word b s)
unfolding nonempty
nonempty-if true s parts = nonempty-append parts (s ∷ [])
nonempty-if false s parts = sym (append-nil (nonempty parts))

nonempty-word : (b : Bool) (c : ℕ) (w : Text) → nonempty (word b (c ∷ w)) ≡ word b (c ∷ w)
unfolding nonempty
nonempty-word true c w = refl
nonempty-word false c w = refl

nonempty-word_set : (w : Text) → nonempty (word (is_set w) w) ≡ word (is_set w) w
unfolding nonempty
nonempty-word_set [] = refl
nonempty-word_set (c ∷ w) = refl

nonempty-one : (w : Text) → nonempty (w ∷ []) ≡ word (is_set w) w
unfolding nonempty
nonempty-one [] = refl
nonempty-one (c ∷ w) = refl

nonempty-cmdline_parts : (o : Opts) → nonempty (cmdline_parts o) ≡ cmdline_words o
unfolding cmdline_parts cmdline_words ascii
nonempty-cmdline_parts o =
    simp (nonempty-if, nonempty-one, nonempty-word, nonempty-word_set, append_assoc)

-- The command line consists of the words that the flags ask for, in this order, with one space
-- between two of them: the base line, `quiet` unless `--verbose`, the plan, the image, the target,
-- `cloudboot.insecure=1` and the extra parameters, each only if it was given.
pub build_cmdline_lem : (o : Opts) → build_cmdline o ≡ spaced (cmdline_words o)
unfolding build_cmdline
build_cmdline_lem o = join_words_lem (cmdline_parts o) ∙ ap spaced (nonempty-cmdline_parts o)
