-- ===== src/Fakereg/Sessions.antt =====
-- Sessions with the fake registry: what it serves back after any sequence of requests.
use uki.Base.{
  ℕ, suc, ◌+◌, Text, true, false, ascii, none, some, List, [], ◌∷◌, ◌==◌, ◌≡◌, refl, ◌∙◌, ap, All,
  arith, ==-refl, Text-discrete, Bool-cases, inl, inr, ◌↔◌,
}
use native.Mathlib.Nat.{zero-add}
use uki.Oci.{MediaTypes}
use uki.Fakereg.{
  Registry, Request, Response, Route, blob, uploads, upload, manifests, unknown, lookup, insert,
  route, serve, serve_route, serve_manifest, fail_serve, fail_route,
}

-- The request is no upload of a manifest to the path.
pub record Spares (path : Text) (q : Request) : Type 0 where
  pub spared : (q.method == ascii "PUT") ≡ true → (q.path == path) ≡ false

module _ (media : MediaTypes) where
  -- The registry after the requests, in their order.
  unfoldable pub serve_all : Registry → List Request → Registry
  serve_all r [] = r
  serve_all r (q ∷ qs) = serve_all (serve media r q).1 qs

  lookup-serve_manifest :
      (r : Registry) (q : Request) (path : Text)
      → Spares path q
      → lookup path (serve_manifest media r q).1.manifests ≡ lookup path r.manifests
  unfolding serve_manifest lookup
  lookup-serve_manifest r q path s = elim (Bool-cases (q.method == ascii "PUT")) [
    | inl put ↦ ground (arith, s.spared put)
    | inr other ↦ ground arith
  ]

  lookup-serve :
      (r : Registry) (q : Request) (path : Text)
      → Spares path q
      → lookup path (serve media r q).1.manifests ≡ lookup path r.manifests
  unfolding serve
  lookup-serve r q path s = by_route (route q.path)
    where
      by_route :
          (t : Route) → lookup path (serve_route media r q t).1.manifests ≡ lookup path r.manifests
      by_route (blob digest) = refl
      by_route uploads = refl
      by_route upload = refl
      by_route manifests = lookup-serve_manifest r q path s
      by_route unknown = refl

  lookup-serve_all :
      (r : Registry) (qs : List Request) (path : Text)
      → All (Spares path) qs
      → lookup path (serve_all r qs).manifests ≡ lookup path r.manifests
  unfolding serve_all
  lookup-serve_all r [] path s = refl
  lookup-serve_all r (q ∷ qs) path (sq, s) =
      lookup-serve_all (serve media r q).1 qs path s ∙ lookup-serve r q path sq

eq→== : (a b : Text) → a ≡ b → (a == b) ≡ true
eq→== a b h = rw h (==-refl b)

get_is_no_put : (a : Text) → a ≡ ascii "GET" → (a == ascii "PUT") ≡ false
unfolding ascii Text-discrete
get_is_no_put a h = rw h refl

module _ (media : MediaTypes) (r : Registry) (q : Request) where
  serve_routed : route q.path ≡ manifests → serve media r q ≡ serve_manifest media r q
  unfolding serve
  serve_routed h = rw (h, serve)

  put_lem :
      q.method ≡ ascii "PUT"
      → (serve_manifest media r q).1.manifests ≡ insert q.path q.body r.manifests
  unfolding serve_manifest
  put_lem h = rw (eq→== _ _ h)

  get_lem :
      (body : Text)
      → q.method ≡ ascii "GET"
      → lookup q.path r.manifests ≡ some body
      → (serve_manifest media r q).0 ≡ record {
        status = 200;
        location = none;
        content_type = some media.image_manifest;
        body = body;
      }
  unfolding serve_manifest
  get_lem body h l = rw (get_is_no_put _ h, eq→== _ _ h, l)

lookup-insert_self : (k v : Text) (m : List (Text × Text)) → lookup k (insert k v m) ≡ some v
unfolding lookup
lookup-insert_self k v m = rw (==-refl k)

-- A manifest that was uploaded by a PUT to a path of the manifests is served back by a GET of this
-- path, byte for byte and with the media type of an image manifest, after any requests in between
-- that upload nothing to this path.
pub get-put_manifest :
    (media : MediaTypes) (r : Registry) (put get : Request) (qs : List Request)
    → route put.path ≡ manifests
    → put.method ≡ ascii "PUT"
    → get.method ≡ ascii "GET"
    → get.path ≡ put.path
    → All (Spares put.path) qs
    → (serve media (serve_all media (serve media r put).1 qs) get).0 ≡ record {
      status = 200;
      location = none;
      content_type = some media.image_manifest;
      body = put.body;
    }
get-put_manifest media r put get qs routed is_put is_get same spared =
    let after = serve_all media (serve media r put).1 qs in
    let kept : lookup get.path after.manifests ≡ some put.body =
      ap (λ p. lookup p after.manifests) same
      ∙ (lookup-serve_all media (serve media r put).1 qs put.path spared
          ∙ (ap (λ (t : Response × Registry). lookup put.path t.1.manifests)
                (serve_routed media r put routed)
              ∙ (ap (lookup put.path) (put_lem media r put is_put)
                  ∙ lookup-insert_self put.path put.body r.manifests))) in
    ap (λ (t : Response × Registry). t.0) (serve_routed media after get (ap route same ∙ routed))
    ∙ get_lem media after get put.body is_get kept

-- The number of upload requests in a session with `StatefulFailReg`.
pub count_uploads : List Request → ℕ
count_uploads [] = 0
count_uploads (q ∷ qs) = elim (route q.path) [
  | uploads ↦ suc (count_uploads qs)
  | _ ↦ count_uploads qs
]

pub fail_all : ℕ → ℕ → List Request → ℕ
fail_all fail_on calls [] = calls
fail_all fail_on calls (q ∷ qs) = fail_all fail_on (fail_serve fail_on calls q).1 qs

fail_all-count :
    (fail_on calls : ℕ) (qs : List Request) → fail_all fail_on calls qs ≡ calls + count_uploads qs
unfolding fail_all count_uploads fail_serve
fail_all-count fail_on calls [] = omega arith
fail_all-count fail_on calls (q ∷ qs) =
    ground (arith, fail_all-count fail_on calls qs, fail_all-count fail_on (suc calls) qs)

fail_route_iff :
    (fail_on calls : ℕ) (t : Route)
    → ((fail_route fail_on calls t).0.status ≡ 500) ↔ ((t ≡ uploads) × (calls + 1 ≡ fail_on))
unfolding fail_route
fail_route_iff fail_on calls (blob d) = (λ h. absurd (omega arith), λ (e, _). cc)
fail_route_iff fail_on calls uploads = (λ h. (refl, ground arith), λ (_, e). ground arith)
fail_route_iff fail_on calls upload = (λ h. absurd (omega arith), λ (e, _). cc)
fail_route_iff fail_on calls manifests = (λ h. absurd (omega arith), λ (e, _). cc)
fail_route_iff fail_on calls unknown = (λ h. absurd (omega arith), λ (e, _). cc)

-- `StatefulFailReg` answers a request with 500 exactly when it is the upload with the number
-- `fail_on`, counting the uploads from the start of the session.
pub fail_serve_iff :
    (fail_on : ℕ) (qs : List Request) (q : Request)
    → ((fail_serve fail_on (fail_all fail_on 0 qs) q).0.status ≡ 500)
      ↔ ((route q.path ≡ uploads) × (count_uploads qs + 1 ≡ fail_on))
unfolding fail_serve
fail_serve_iff fail_on qs q =
    rw (fail_all-count fail_on 0 qs, zero-add)
      (fail_route_iff fail_on (count_uploads qs) (route q.path))
