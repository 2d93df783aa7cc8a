-- ===== src/Canonical/Identity.antt =====
-- canonical.py: the digest of a document, and the digest that the document carries.
use mncs_commons.Base.{String, ◌≡◌, refl, List, ◌∷◌, arith, eq_iff}
use mncs_commons.Json.{Json, obj, Fields, end, field, set, pop}
use mncs_commons.Json.Laws.{get-set, pop-set_self, pop-set_other}
use mncs_commons.Result.{Runtime}
use mncs_commons.Canonical.{
  canonicalize, canonicalize_fields, without_digest, identity_projection, canonical_digest,
}

pub canonicalize-set :
    (path : List String) (k : String) (v : Json) (fs : Fields)
    → canonicalize_fields path (set k v fs)
      ≡ set k (canonicalize (k ∷ path) v) (canonicalize_fields path fs)
unfolding canonicalize set
canonicalize-set path k v end = refl
canonicalize-set path k v (field j w fs) = ground (arith, eq_iff j k, canonicalize-set path k v fs)

without_digest-set :
    (m d : Json) (fs : Fields)
    → pop "contentDigest" (without_digest m (set "contentDigest" d fs))
      ≡ pop "contentDigest" (without_digest m fs)
without_digest-set (obj metadata) d fs = simp (pop-set_other, pop-set_self)
without_digest-set _ d fs = pop-set_self "contentDigest" d fs

identity_projection-set :
    (d : Json) (fs : Fields)
    → identity_projection (set "contentDigest" d fs) ≡ identity_projection fs
unfolding identity_projection
identity_projection-set d fs = rw (canonicalize-set, get-set) (without_digest-set _ _ _)

-- Writing any value under `contentDigest` leaves the digest of a document as it was.
pub canonical_digest-set :
    (R : Runtime) (d : Json) (fs : Fields)
    → canonical_digest R (set "contentDigest" d fs) ≡ canonical_digest R fs
unfolding canonical_digest
canonical_digest-set R d fs = rw (identity_projection-set d fs)
