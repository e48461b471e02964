-- ===== src/Fakereg/Log.antt =====
-- What the fake registry answers, told from the requests that it got before, without a state.
use uki.Base.{Text, ascii, Option, none, some, List, [], ◌∷◌, ◌==◌, if◌then◌else◌}
use uki.Oci.{MediaTypes}
use uki.Fakereg.{Request, Response, Route, blob, uploads, upload, manifests, unknown, reply, route}

abbrev pub newer : Option Text → Option Text → Option Text
newer (some a) _ = some a
newer none b = b

-- The latest text that a request of the log gives.
unfoldable pub last : (Request → Option Text) → List Request → Option Text
last f [] = none
last f (q ∷ qs) = newer (last f qs) (f q)

-- The manifest that a request publishes, at any path.
unfoldable pub published : Request → Option Text
published q = elim (route q.path) [
  | manifests ↦ if q.method == ascii "PUT" then some q.body else none
  | _ ↦ none
]

-- The manifest that it publishes at one path.
unfoldable pub published_at : Text → Request → Option Text
published_at path q = if q.path == path then published q else none

-- The blob that it uploads under a digest.
unfoldable pub uploaded : Text → Request → Option Text
uploaded digest q = elim (route q.path) [
  | upload ↦ if q.digest == digest then some q.body else none
  | _ ↦ none
]

unfoldable pub text_of : Option Text → Text
text_of none = []
text_of (some t) = t

unfoldable pub status_of : Option Text → Response
status_of none = reply 404
status_of (some _) = reply 200

unfoldable pub manifest_answer : MediaTypes → List Request → Request → Response
manifest_answer media log q =
    if q.method == ascii "PUT"
    then reply 201
    else if q.method == ascii "GET"
    then record {
      status = 200;
      location = none;
      content_type = some media.image_manifest;
      body = text_of (newer (last (published_at q.path) log) (last published log));
    }
    else reply 200

unfoldable pub blob_answer : List Request → Request → Text → Response
blob_answer log q digest =
    if q.method == ascii "HEAD" then status_of (last (uploaded digest) log) else reply 200

unfoldable pub route_answer : MediaTypes → List Request → Request → Route → Response
route_answer media log q (blob digest) = blob_answer log q digest
route_answer media log q uploads = record (reply 202) { location = some (ascii "/upload/abc") }
route_answer media log q upload = reply 201
route_answer media log q manifests = manifest_answer media log q
route_answer media log q unknown = reply 404

-- The answer to a request behind the requests of the log: a GET of a manifest gives the latest one
-- of its path, or else the latest one of any path, or else nothing; a HEAD of a blob tells whether
-- one was uploaded under its digest.
unfoldable pub answer : MediaTypes → List Request → Request → Response
answer media log q = route_answer media log q (route q.path)
