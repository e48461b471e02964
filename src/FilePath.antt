-- ===== src/FilePath.antt =====
-- The functions of Go's `path` and `path/filepath` that the source calls, for a system whose
-- separator is the slash. The two packages agree there.
use uki.Base.{
  Text, ascii, Bool, false, List, [], ◌∷◌, ◌++◌, ◌==◌, ◌&&◌, ◌||◌, is_empty, Text-discrete,
}
use uki.Base.{if◌then◌else◌}
use uki.Strings.{byte_eq, prepend}

abbrev slash : Text
slash = b'/' ∷ []

-- `strings.TrimRight(s, "/")`
unfoldable pub trim_right : Text → Text
trim_right [] = []
trim_right (c ∷ s) =
    let rest = trim_right s in if is_empty rest && byte_eq c b'/' then [] else c ∷ rest

-- The parts between slashes; there is at least one.
unfoldable pub elements : Text → List Text
elements [] = [] ∷ []
elements (c ∷ s) = let rest = elements s in if byte_eq c b'/' then [] ∷ rest else prepend c rest

last_or : Text → List Text → Text
last_or d [] = d
last_or d (p ∷ ps) = last_or p ps

-- `filepath.Base`
unfoldable pub base : Text → Text
unfolding trim_right elements last_or
base [] = b'.' ∷ []
base (c ∷ s) =
    let stripped = trim_right (c ∷ s) in
    let name = last_or [] (elements stripped) in if is_empty stripped then slash else name

-- The elements joined by single slashes.
unfoldable pub with_slashes : List Text → Text
with_slashes [] = []
with_slashes (p ∷ []) = p
with_slashes (p ∷ q ∷ ps) = p ++ b'/' ∷ with_slashes (q ∷ ps)

-- `..` against the elements kept so far, the latest first.
parent_step : Bool → List Text → List Text
parent_step rooted [] = if rooted then [] else ascii ".." ∷ []
parent_step rooted (q ∷ qs) = if q == ascii ".." then ascii ".." ∷ q ∷ qs else qs

-- One element in `Clean`.
clean_step : Bool → List Text → Text → List Text
unfolding ascii Text-discrete parent_step
clean_step rooted done p =
    if is_empty p || p == ascii "."
    then done
    else if p == ascii ".."
    then parent_step rooted done
    else p ∷ done

clean_all : Bool → List Text → List Text → List Text
clean_all rooted done [] = done
clean_all rooted done (p ∷ ps) = clean_all rooted (clean_step rooted done p) ps

reverse_onto : List Text → List Text → List Text
reverse_onto [] out = out
reverse_onto (p ∷ ps) out = reverse_onto ps (p ∷ out)

starts_rooted : Text → Bool
starts_rooted [] = false
starts_rooted (c ∷ s) = byte_eq c b'/'

-- `filepath.Clean`
unfoldable pub clean : Text → Text
unfolding elements with_slashes clean_step clean_all reverse_onto starts_rooted
clean s =
    let rooted = starts_rooted s in
    let kept = with_slashes (reverse_onto (clean_all rooted [] (elements s)) []) in
    if rooted then b'/' ∷ kept else if is_empty kept then b'.' ∷ [] else kept

drop_empty : List Text → List Text
drop_empty [] = []
drop_empty (p ∷ ps) = let rest = drop_empty ps in if is_empty p then rest else p ∷ rest

-- `filepath.Join`: empty elements are left out, and nothing at all stays empty.
unfoldable pub join : List Text → Text
unfolding clean drop_empty
join ps = let kept = with_slashes (drop_empty ps) in if is_empty kept then [] else clean kept

drop_dot : List Text → List Text
unfolding ascii Text-discrete
drop_dot [] = []
drop_dot (p ∷ ps) = if p == ascii "." then ps else p ∷ ps

-- The elements of a cleaned path; "." has none.
clean_elements : Text → List Text
unfolding clean drop_empty drop_dot
clean_elements s = drop_empty (drop_dot (elements (clean s)))

-- What is left of both lists behind their common beginning.
past_common : List Text → List Text → List Text × List Text
unfolding Text-discrete
past_common [] targ = ([], targ)
past_common (b ∷ base) [] = (b ∷ base, [])
past_common (b ∷ base) (t ∷ targ) =
    let rest = past_common base targ in if b == t then rest else (b ∷ base, t ∷ targ)

up : List Text → List Text → List Text
up [] targ = targ
up (_ ∷ base) targ = ascii ".." ∷ up base targ

rel_of : List Text × List Text → Text
rel_of ([], []) = b'.' ∷ []
rel_of ([], t ∷ targ) = with_slashes (t ∷ targ)
rel_of (b ∷ base, targ) = if b == ascii ".." then [] else with_slashes (up (b ∷ base) targ)

-- `filepath.Rel`, with "" in place of an error, as for its caller, which drops the error.
unfoldable pub rel : Text → Text → Text
unfolding clean_elements past_common rel_of up with_slashes starts_rooted drop_empty
rel base targ =
    let kept = rel_of (past_common (clean_elements base) (clean_elements targ)) in
    if starts_rooted (clean base)
    then (if starts_rooted (clean targ) then kept else [])
    else (if starts_rooted (clean targ) then [] else kept)
