-- ===== src/Fakereg/Refines.antt =====
-- The fake registry keeps what its answers need of the requests.
use uki.Base.{Text, Option, none, some, List, [], ◌∷◌, ◌≡◌, refl, ◌∙◌, ap, arith}
use uki.Oci.{MediaTypes}
use uki.Fakereg.{
  Registry, Request, Route, blob, uploads, upload, manifests, unknown, empty, lookup, route, serve,
  serve_route, serve_manifest, serve_blob,
}
use uki.Fakereg.Sessions.{serve_all}
use uki.Fakereg.Log.{
  newer, last, published, published_at, uploaded, answer, text_of, status_of, blob_answer,
  manifest_answer, route_answer,
}

newer_assoc : (a b c : Option Text) → newer a (newer b c) ≡ newer (newer a b) c
newer_assoc none b c = refl
newer_assoc (some x) b c = refl

newer-none : (a : Option Text) → newer a none ≡ a
newer-none none = refl
newer-none (some x) = refl

module _ (media : MediaTypes) where
  -- A view of the registry in which a request counts as `f` says.
  module _ (view : Registry → Option Text) (f : Request → Option Text)
      (step : (r : Registry) (q : Request) → view (serve media r q).1 ≡ newer (f q) (view r)) where
    view-serve_all :
        (r : Registry) (qs : List Request)
        → view (serve_all media r qs) ≡ newer (last f qs) (view r)
    unfolding serve_all last
    view-serve_all r [] = refl
    view-serve_all r (q ∷ qs) =
        view-serve_all (serve media r q).1 qs
        ∙ (ap (newer (last f qs)) (step r q) ∙ newer_assoc (last f qs) (f q) (view r))

  manifest_step :
      (r : Registry) (q : Request) → (serve media r q).1.manifest ≡ newer (published q) r.manifest
  unfolding serve serve_route serve_manifest published
  manifest_step r q = ground arith

  manifests_step :
      (path : Text) (r : Registry) (q : Request)
      → lookup path (serve media r q).1.manifests
        ≡ newer (published_at path q) (lookup path r.manifests)
  unfolding serve serve_route serve_manifest published published_at lookup
  manifests_step path r q = ground arith

  blobs_step :
      (digest : Text) (r : Registry) (q : Request)
      → lookup digest (serve media r q).1.blobs ≡ newer (uploaded digest q) (lookup digest r.blobs)
  unfolding serve serve_route serve_manifest uploaded lookup
  blobs_step digest r q = ground arith

  module _ (qs : List Request) where
    after : Registry
    after = serve_all media empty qs

    manifest_kept : after.manifest ≡ last published qs
    unfolding after
    manifest_kept = view-serve_all (λ r. r.manifest) published manifest_step empty qs ∙ newer-none _

    manifests_kept : (path : Text) → lookup path after.manifests ≡ last (published_at path) qs
    unfolding after lookup
    manifests_kept path =
        view-serve_all (λ r. lookup path r.manifests) (published_at path) (manifests_step path)
          empty qs
        ∙ newer-none _

    blobs_kept : (digest : Text) → lookup digest after.blobs ≡ last (uploaded digest) qs
    unfolding after lookup
    blobs_kept digest =
        view-serve_all (λ r. lookup digest r.blobs) (uploaded digest) (blobs_step digest) empty qs
        ∙ newer-none _

    blob_lem :
        (q : Request) (digest : Text) → serve_blob after q.method digest ≡ blob_answer qs q digest
    unfolding serve_blob blob_answer status_of
    blob_lem q digest = rw (← blobs_kept digest) (ground arith)

    manifest_lem : (q : Request) → (serve_manifest media after q).0 ≡ manifest_answer media qs q
    unfolding serve_manifest manifest_answer text_of
    manifest_lem q = rw (← manifest_kept, ← manifests_kept q.path) (ground arith)

    route_lem :
        (q : Request) (t : Route) → (serve_route media after q t).0 ≡ route_answer media qs q t
    unfolding serve_route route_answer
    route_lem q (blob digest) = blob_lem q digest
    route_lem q uploads = refl
    route_lem q upload = refl
    route_lem q manifests = manifest_lem q
    route_lem q unknown = refl

-- After any requests, in their order, the registry that started empty answers each request as the
-- log of these requests tells, whatever its method and its path are.
pub serve-answer :
    (media : MediaTypes) (qs : List Request) (q : Request)
    → (serve media (serve_all media empty qs) q).0 ≡ answer media qs q
unfolding serve answer after
serve-answer media qs q = route_lem media qs q (route q.path)
