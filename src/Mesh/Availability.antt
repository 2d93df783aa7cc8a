-- ===== src/Mesh/Availability.antt =====
-- src/mncs_commons/mesh/availability.py: where evidence can be had, and references to it.
pub mod Laws
use mncs_commons.Base.{
  ℕ, pos, String, Bool, true, false, not, ◌&&◌, Option, none, some, List, [], ◌∷◌, ◌<>◌, ◌==◌, leb,
  count, is_blank, if◌then◌else◌,
}
use mncs_commons.Json.{Json, null, bool, num, text, arr, obj, Fields, end, field, get, get_or}
use mncs_commons.Result.{Runtime, Result, ok, err, refused, ◌>>=◌}
use mncs_commons.Models.{str}

-- `EvidenceAvailability`
pub data Availability : Type 0 where
  unavailable source_available local mirrored durable canonical : Availability

-- The value of a member.
abbrev pub name_of : Availability → String
name_of unavailable = "UNAVAILABLE"
name_of source_available = "SOURCE_AVAILABLE"
name_of local = "LOCAL"
name_of mirrored = "MIRRORED"
name_of durable = "DURABLE"
name_of canonical = "CANONICAL"

-- `EvidenceAvailability(text)`, `none` for a `ValueError`
abbrev pub availability_named : String → Option Availability
availability_named s =
    if s == "UNAVAILABLE"
    then some unavailable
    else if s == "SOURCE_AVAILABLE"
    then some source_available
    else if s == "LOCAL"
    then some local
    else if s == "MIRRORED"
    then some mirrored
    else if s == "DURABLE"
    then some durable
    else if s == "CANONICAL"
    then some canonical
    else none

-- `RETENTION_PRIORITY`
abbrev pub retention_priority : Availability → ℕ
retention_priority unavailable = 0
retention_priority source_available = 1
retention_priority local = 2
retention_priority mirrored = 3
retention_priority durable = 4
retention_priority canonical = 5

unfoldable pub merge_availability : Availability → Availability → Availability
merge_availability first second =
    if leb (retention_priority second) (retention_priority first) then first else second

pub record EvidenceReference : Type 0 where
  pub digest : String
  pub availability : Availability
  pub media_type : Option String
  pub size_bytes : Option ℕ
  pub provenance : Option String

abbrev pub max_evidence_bytes : ℕ
max_evidence_bytes = 1073741824

abbrev pub is_short : ℕ → String → Bool
is_short maximum s = not (is_blank s) && leb (count s) maximum

-- `_bounded_text`, which returns the text as it is given
unfoldable pub bounded : ℕ → String → Json → Result String
bounded maximum name (text s) =
    if is_short maximum s
    then ok s
    else err (refused "INVALID_EVIDENCE_REFERENCE" (name <> " must be a bounded string"))
bounded maximum name _ =
    err (refused "INVALID_EVIDENCE_REFERENCE" (name <> " must be a bounded string"))

unfoldable pub bounded_if_given : ℕ → String → Json → Result (Option String)
unfolding bounded
bounded_if_given maximum name null = ok none
bounded_if_given maximum name value = do s ← bounded maximum name value; ok (some s)

unfoldable pub bounded_size : Json → Result (Option ℕ)
bounded_size null = ok none
bounded_size (num (pos n)) =
    if leb n max_evidence_bytes
    then ok (some n)
    else err (refused "INVALID_EVIDENCE_REFERENCE" "sizeBytes must be a bounded integer")
bounded_size _ = err (refused "INVALID_EVIDENCE_REFERENCE" "sizeBytes must be a bounded integer")

-- The message of the code goes on with the value and the known names.
unfoldable pub known_availability : String → Result Availability
known_availability s = elim (availability_named s) [
  | none ↦ err (refused "UNKNOWN_AVAILABILITY" "availability is not supported")
  | some availability ↦ ok availability
]

-- `EvidenceReference.from_mapping`
unfoldable pub from_mapping : Runtime → Json → Result EvidenceReference
from_mapping R (obj value) = do
  digest ← bounded 256 "digest" (get "digest" value)
  availability ← known_availability (str R (get_or "availability" (text "UNAVAILABLE") value))
  media_type ← bounded_if_given 128 "mediaType" (get "mediaType" value)
  size_bytes ← bounded_size (get "sizeBytes" value)
  provenance ← bounded_if_given 512 "provenance" (get "provenance" value)
  ok (record {
    digest = digest;
    availability = availability;
    media_type = media_type;
    size_bytes = size_bytes;
    provenance = provenance;
  })
from_mapping R _ = err (refused "INVALID_EVIDENCE_REFERENCE" "evidence reference must be an object")

abbrev pub with_text : String → Option String → Fields → Fields
with_text name none fs = fs
with_text name (some s) fs = field name (text s) fs

abbrev pub with_size : Option ℕ → Fields → Fields
with_size none fs = fs
with_size (some n) fs = field "sizeBytes" (num (pos n)) fs

-- `EvidenceReference.as_dict`
abbrev pub as_fields : EvidenceReference → Fields
as_fields reference = field "digest" (text reference.digest) (
    field "availability" (text (name_of reference.availability)) (
      with_text "mediaType" reference.media_type
        (with_size reference.size_bytes (with_text "provenance" reference.provenance end))))
