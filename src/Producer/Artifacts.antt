-- ===== src/Producer/Artifacts.antt =====
-- family.py: an artifact that was read is read again as it is.
use mncs_commons.Base.{[], ◌∷◌, [], String, ◌≡◌, refl, Option, none, some}
use mncs_commons.Json.{Json, null, obj, get, lookup, keys}
use mncs_commons.Result.{ok, >>=-eq-ok, ok-injective}
use mncs_commons.Producer.{
  refuse_unknown, family_text, family_text_if_given, read_artifact, artifact_fields, Artifact,
  unknown_keys,
}
use mncs_commons.Producer.Texts.{IsSettled, IsSettledIfGiven, given-IsSettled, text-IsSettled}

abbrev pub IsSettledArtifact : Option Artifact → Type 0
IsSettledArtifact none = Unit
IsSettledArtifact (some a) =
    IsSettled 2048 a.identity
    × IsSettled 256 a.kind
    × IsSettledIfGiven 256 a.digest
    × IsSettledIfGiven 4096 a.location

abbrev pub artifact : String → String → Option String → Option String → Artifact
artifact i k d l = record { identity = i; kind = k; digest = d; location = l }

none-IsSettledArtifact : (o : Option Artifact) → none ≡ o → IsSettledArtifact o
none-IsSettledArtifact none h = tt
none-IsSettledArtifact (some a) h = cc

pub artifact-IsSettled :
    (j : Json) (o : Option Artifact) → read_artifact j ≡ ok o → IsSettledArtifact o
unfolding read_artifact
artifact-IsSettled null o h = none-IsSettledArtifact o (ok-injective h)
artifact-IsSettled (obj fs) o h =
    let (u, e0, r0) =
      >>=-eq-ok
        (refuse_unknown "artifact reference"
          (unknown_keys ("identity" ∷ "kind" ∷ "digest" ∷ "location" ∷ []) (keys fs)))
        _ h in
    let (i, e1, r1) = >>=-eq-ok (family_text 2048 "artifact.identity" (get "identity" fs)) _ r0 in
    let (k, e2, r2) = >>=-eq-ok (family_text 256 "artifact.kind" (get "kind" fs)) _ r1 in
    let (d, e3, r3) =
      >>=-eq-ok (family_text_if_given 256 "artifact.digest" (get "digest" fs)) _ r2 in
    let (l, e4, r4) =
      >>=-eq-ok (family_text_if_given 4096 "artifact.location" (get "location" fs)) _ r3 in
    let same : some (artifact i k d l) ≡ o = ok-injective r4 in
    rw (← same) (
      (
        text-IsSettled 2048 "artifact.identity" (get "identity" fs) i e1,
        text-IsSettled 256 "artifact.kind" (get "kind" fs) k e2,
        given-IsSettled 256 "artifact.digest" (get "digest" fs) d e3,
        given-IsSettled 4096 "artifact.location" (get "location" fs) l e4,
      ))
artifact-IsSettled _ o h = cc

settled-artifact :
    (i k : String) (d l : Option String)
    → IsSettledArtifact (some (artifact i k d l))
    → read_artifact (obj (artifact_fields (artifact i k d l))) ≡ ok (some (artifact i k d l))
unfolding read_artifact family_text family_text_if_given unknown_keys get lookup
settled-artifact i k none none h = rw (h.0.0, h.0.1, h.1.0, h.1.1) refl
settled-artifact i k none (some l) h = rw (h.0.0, h.0.1, h.1.0, h.1.1, h.3.0, h.3.1) refl
settled-artifact i k (some d) none h = rw (h.0.0, h.0.1, h.1.0, h.1.1, h.2.0, h.2.1) refl
settled-artifact i k (some d) (some l) h =
    rw (h.0.0, h.0.1, h.1.0, h.1.1, h.2.0, h.2.1, h.3.0, h.3.1) refl

-- What stands under `artifact` in the dict of a reference.
abbrev pub written : Option Artifact → Json
written none = null
written (some a) = obj (artifact_fields a)

pub settled-written : (o : Option Artifact) → IsSettledArtifact o → read_artifact (written o) ≡ ok o
unfolding read_artifact
settled-written none h = refl
settled-written (some a) h = settled-artifact a.identity a.kind a.digest a.location h
