-- ===== src/Fakereg.antt =====
-- cmd/cloud-boot/internal/fakereg/fakereg.go: the in-process registry of the push tests. The
-- routing is that of `http.ServeMux`, where the longest pattern wins; paths are clean.
pub mod Sessions
pub mod Log
pub mod Refines
use uki.Base.{ℕ, suc, Text, ascii, Option, none, some, List, [], ◌∷◌, ◌++◌, ◌==◌, if◌then◌else◌}
use uki.Strings.{byte_eq}
use uki.Oci.{MediaTypes}

-- `Registry`, without its server.
pub record Registry : Type 0 where
  pub blobs : List (Text × Text)
  pub manifest : Option Text
  pub manifests : List (Text × Text)

-- What `Start` begins with.
abbrev pub empty : Registry
empty = record { blobs = []; manifest = none; manifests = [] }

pub record Request : Type 0 where
  pub method : Text
  pub path : Text
  pub digest : Text
  pub body : Text

pub record Response : Type 0 where
  pub status : ℕ
  pub location : Option Text
  pub content_type : Option Text
  pub body : Text

abbrev pub reply : ℕ → Response
reply status = record { status = status; location = none; content_type = none; body = [] }

-- `m[key]`
pub lookup : Text → List (Text × Text) → Option Text
lookup key [] = none
lookup key ((k, v) ∷ m) = if k == key then some v else lookup key m

-- `m[key] = value`; the first entry of a key is the one that counts.
abbrev pub insert : Text → Text → List (Text × Text) → List (Text × Text)
insert key value m = (key, value) ∷ m

-- The text behind the prefix, if it is there.
unfoldable pub strip_prefix : Text → Text → Option Text
strip_prefix [] s = some s
strip_prefix (c ∷ p) [] = none
strip_prefix (c ∷ p) (d ∷ s) = if byte_eq c d then strip_prefix p s else none

pub data Route : Type 0 where
  blob : Text → Route
  uploads upload manifests unknown : Route

-- `/v2/r/blobs/uploads/` comes before `/v2/r/blobs/`, as the longer pattern.
pub blob_route : Text → Route
unfolding ascii strip_prefix
blob_route path = elim (strip_prefix (ascii "uploads/") path) [
  | some _ ↦ uploads
  | none ↦ blob path
]

unfoldable pub route : Text → Route
unfolding blob_route ascii strip_prefix
route path = elim (strip_prefix (ascii "/v2/r/blobs/") path) [
  | some rest ↦ blob_route rest
  | none ↦
      if path == ascii "/upload/abc"
      then upload
      else elim (strip_prefix (ascii "/v2/r/manifests/") path) [
        | some _ ↦ manifests
        | none ↦ unknown
      ]
]

-- The handler of `/v2/r/blobs/`. A method without a case leaves the status at 200.
pub serve_blob : Registry → Text → Text → Response
serve_blob r method digest =
    if method == ascii "HEAD"
    then elim (lookup digest r.blobs) [ some _ ↦ reply 200 | none ↦ reply 404 ]
    else reply 200

-- The handler of `/v2/r/manifests/`.
pub serve_manifest : MediaTypes → Registry → Request → Response × Registry
serve_manifest media r req =
    if req.method == ascii "PUT"
    then (
      reply 201,
      record r { manifest = some req.body; manifests = insert req.path req.body r.manifests },
    )
    else if req.method == ascii "GET"
    then (
      record {
        status = 200;
        location = none;
        content_type = some media.image_manifest;
        body = elim (lookup req.path r.manifests) [
          | some body ↦ body
          | none ↦ elim r.manifest [ some body ↦ body | none ↦ [] ]
        ];
      },
      r,
    )
    else (reply 200, r)

serve_route : MediaTypes → Registry → Request → Route → Response × Registry
serve_route media r req (blob digest) = (serve_blob r req.method digest, r)
serve_route media r req uploads = (record (reply 202) { location = some (ascii "/upload/abc") }, r)
serve_route media r req upload =
    (reply 201, record r { blobs = insert req.digest req.body r.blobs })
serve_route media r req manifests = serve_manifest media r req
serve_route media r req unknown = (reply 404, r)

-- One request to the registry that `Start` sets up.
pub serve : MediaTypes → Registry → Request → Response × Registry
unfolding serve_route
serve media r req = serve_route media r req (route req.path)

-- `RepoRef`, with the host of the server.
pub repo_ref : Text → Text → Text
repo_ref host tag = host ++ ascii "/r:" ++ tag

-- The Nth upload fails: `StatefulFailReg`, whose state is `calls`.
pub fail_route : ℕ → ℕ → Route → Response × ℕ
fail_route fail_on calls (blob _) = (reply 404, calls)
fail_route fail_on calls uploads =
    if byte_eq (suc calls) fail_on
    then (reply 500, suc calls)
    else (record (reply 202) { location = some (ascii "/upload/abc") }, suc calls)
fail_route fail_on calls upload = (reply 201, calls)
fail_route fail_on calls manifests = (reply 201, calls)
fail_route fail_on calls unknown = (reply 404, calls)

pub fail_serve : ℕ → ℕ → Request → Response × ℕ
unfolding fail_route
fail_serve fail_on calls req = fail_route fail_on calls (route req.path)
