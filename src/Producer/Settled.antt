-- ===== src/Producer/Settled.antt =====
-- family.py: a reference that was normalized is normalized already.
use mncs_commons.Base.{[], [], String, ◌≡◌, refl, Option, none, some}
use mncs_commons.Json.{Json, null, text, obj, Fields, get, get_or, lookup, keys, equals}
use mncs_commons.Result.{ok, require, >>=-eq-ok, ok-injective}
use mncs_commons.Producer.{
  reference_fields, refuse_unknown, family_reference_schema, family_text, family_text_if_given,
  exact_digest, read_digest, read_artifact, read_scope, read_reference, reference_dict, Artifact,
  ProducerReference, normalize_producer_reference, unknown_keys,
}
use mncs_commons.Producer.Texts.{
  IsExact, IsSettled, IsSettledIfGiven, digest-IsSettled, text-IsSettled, settled-digest,
}
use mncs_commons.Producer.Artifacts.{
  IsSettledArtifact, artifact-IsSettled, settled-written, written,
}

abbrev digest_written : Option String → Json
digest_written none = null
digest_written (some s) = text s

settled-digest_written :
    (o : Option String) → IsSettledIfGiven 80 o → IsExact o → read_digest (digest_written o) ≡ ok o
unfolding read_digest family_text_if_given exact_digest
settled-digest_written none h e = refl
settled-digest_written (some s) h e = settled-digest s h e

abbrev scope_written : Option Fields → Json
scope_written none = null
scope_written (some fs) = obj fs

settled-scope : (o : Option Fields) → read_scope (scope_written o) ≡ ok o
unfolding read_scope
settled-scope none = refl
settled-scope (some fs) = refl

abbrev IsSettledReference : ProducerReference → Type 0
IsSettledReference r =
    IsSettled 256 r.producer
    × IsSettled 256 r.record_kind
    × IsSettled 256 r.schema_version
    × IsSettled 2048 r.stable_id
    × (IsSettledIfGiven 80 r.content_digest × IsExact r.content_digest)
    × IsSettledArtifact r.artifact

abbrev reference :
    String
    → String
    → String
    → String
    → Option String
    → Option Artifact
    → Option Fields
    → ProducerReference
reference p k v i d a s = record {
  producer = p;
  record_kind = k;
  schema_version = v;
  stable_id = i;
  content_digest = d;
  artifact = a;
  scope = s;
}

reference-IsSettled :
    (fs : Fields) (r : ProducerReference) → read_reference fs ≡ ok r → IsSettledReference r
unfolding read_reference
reference-IsSettled fs r h =
    let (u, e0, r0) =
      >>=-eq-ok (refuse_unknown "producer reference" (unknown_keys reference_fields (keys fs))) _
        h in
    let (w, e1, r1) =
      >>=-eq-ok
        (require
          (equals (get_or "schema" (text family_reference_schema) fs) family_reference_schema) _ _)
        _ r0 in
    let (p, e2, r2) = >>=-eq-ok (family_text 256 "producer" (get "producer" fs)) _ r1 in
    let (k, e3, r3) = >>=-eq-ok (family_text 256 "recordKind" (get "recordKind" fs)) _ r2 in
    let (v, e4, r4) = >>=-eq-ok (family_text 256 "schemaVersion" (get "schemaVersion" fs)) _ r3 in
    let (i, e5, r5) = >>=-eq-ok (family_text 2048 "stableId" (get "stableId" fs)) _ r4 in
    let (d, e6, r6) = >>=-eq-ok (read_digest (get "contentDigest" fs)) _ r5 in
    let (a, e7, r7) = >>=-eq-ok (read_artifact (get "artifact" fs)) _ r6 in
    let (s, e8, r8) = >>=-eq-ok (read_scope (get "scope" fs)) _ r7 in
    let same : reference p k v i d a s ≡ r = ok-injective r8 in
    rw (← same) (
      (
        text-IsSettled 256 "producer" (get "producer" fs) p e2,
        text-IsSettled 256 "recordKind" (get "recordKind" fs) k e3,
        text-IsSettled 256 "schemaVersion" (get "schemaVersion" fs) v e4,
        text-IsSettled 2048 "stableId" (get "stableId" fs) i e5,
        digest-IsSettled (get "contentDigest" fs) d e6,
        artifact-IsSettled (get "artifact" fs) a e7,
      ))

-- The fields of the dict, whichever are there.
get-dict_digest :
    (p k v i : String) (d : Option String) (a : Option Artifact) (s : Option Fields)
    → get "contentDigest" (reference_dict (reference p k v i d a s)) ≡ digest_written d
unfolding get lookup
get-dict_digest p k v i none none none = refl
get-dict_digest p k v i none none (some s) = refl
get-dict_digest p k v i none (some a) none = refl
get-dict_digest p k v i none (some a) (some s) = refl
get-dict_digest p k v i (some d) a s = refl

get-dict_artifact :
    (p k v i : String) (d : Option String) (a : Option Artifact) (s : Option Fields)
    → get "artifact" (reference_dict (reference p k v i d a s)) ≡ written a
unfolding get lookup
get-dict_artifact p k v i none none none = refl
get-dict_artifact p k v i none none (some s) = refl
get-dict_artifact p k v i none (some a) s = refl
get-dict_artifact p k v i (some d) none none = refl
get-dict_artifact p k v i (some d) none (some s) = refl
get-dict_artifact p k v i (some d) (some a) s = refl

get-dict_scope :
    (p k v i : String) (d : Option String) (a : Option Artifact) (s : Option Fields)
    → get "scope" (reference_dict (reference p k v i d a s)) ≡ scope_written s
unfolding get lookup
get-dict_scope p k v i none none none = refl
get-dict_scope p k v i none none (some s) = refl
get-dict_scope p k v i none (some a) none = refl
get-dict_scope p k v i none (some a) (some s) = refl
get-dict_scope p k v i (some d) none none = refl
get-dict_scope p k v i (some d) none (some s) = refl
get-dict_scope p k v i (some d) (some a) none = refl
get-dict_scope p k v i (some d) (some a) (some s) = refl

unknown-dict :
    (p k v i : String) (d : Option String) (a : Option Artifact) (s : Option Fields)
    → unknown_keys reference_fields (keys (reference_dict (reference p k v i d a s))) ≡ []
unfolding unknown_keys
unknown-dict p k v i none none none = refl
unknown-dict p k v i none none (some s) = refl
unknown-dict p k v i none (some a) none = refl
unknown-dict p k v i none (some a) (some s) = refl
unknown-dict p k v i (some d) none none = refl
unknown-dict p k v i (some d) none (some s) = refl
unknown-dict p k v i (some d) (some a) none = refl
unknown-dict p k v i (some d) (some a) (some s) = refl

settled-read :
    (p k v i : String) (d : Option String) (a : Option Artifact) (s : Option Fields)
    → IsSettledReference (reference p k v i d a s)
    → read_reference (reference_dict (reference p k v i d a s)) ≡ ok (reference p k v i d a s)
unfolding read_reference family_text get get_or lookup
settled-read p k v i d a s h =
    rw
      (
        unknown-dict p k v i d a s,
        h.0.0,
        h.0.1,
        h.1.0,
        h.1.1,
        h.2.0,
        h.2.1,
        h.3.0,
        h.3.1,
        get-dict_digest p k v i d a s,
        settled-digest_written d h.4.0 h.4.1,
        get-dict_artifact p k v i d a s,
        settled-written a h.5,
        get-dict_scope p k v i d a s,
        settled-scope s,
      )
      refl

-- The dict that `normalize_producer_reference` returns is a fixed point of it.
pub normalize-normalize :
    (value normalized : Fields)
    → normalize_producer_reference value ≡ ok normalized
    → normalize_producer_reference normalized ≡ ok normalized
unfolding normalize_producer_reference
normalize-normalize value normalized h =
    let (r, e, same) = >>=-eq-ok (read_reference value) _ h in
    rw (← ok-injective same) (
      rw
        (settled-read r.producer r.record_kind r.schema_version r.stable_id r.content_digest
          r.artifact r.scope (reference-IsSettled value r e))
        refl)
