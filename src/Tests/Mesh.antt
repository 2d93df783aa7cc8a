-- ===== src/Tests/Mesh.antt =====
-- The mesh on small inputs.
use mncs_commons.Base.{◌⊎◌, pos, ◌≡◌, refl, none, some, ◌≤◌, is_blank, is_space}
use mncs_commons.Json.{Json, num, text, obj, end, field, get, get_or, lookup}
use mncs_commons.Result.{ok}
use mncs_commons.Mesh.Availability.{
  local, mirrored, canonical, retention_priority, merge_availability, EvidenceReference, bounded,
  bounded_if_given, bounded_size, known_availability, from_mapping, as_fields,
}
use mncs_commons.Mesh.Availability.Laws.{from_mapping-as_fields, merge_availability-join}
use mncs_commons.Samples.{plain}

abbrev given : Json
given = obj (
    field "sizeBytes" (num (pos 5))
      (field "availability" (text "LOCAL") (field "digest" (text "sha256:e") end)))

abbrev read : EvidenceReference
read = record {
  digest = "sha256:e";
  availability = local;
  media_type = none;
  size_bytes = some 5;
  provenance = none;
}

from_mapping-as_fields_example : from_mapping plain (obj (as_fields read)) ≡ ok read
unfolding from_mapping bounded bounded_if_given bounded_size known_availability get get_or lookup
    is_blank is_space
from_mapping-as_fields_example = from_mapping-as_fields plain given read refl

merge_availability-join_example :
    ((merge_availability local canonical ≡ local)
      ⊎ (merge_availability local canonical ≡ canonical))
    × (merge_availability local canonical ≡ merge_availability canonical local)
    × (merge_availability (merge_availability local canonical) mirrored
        ≡ merge_availability local (merge_availability canonical mirrored))
    × (retention_priority local ≤ retention_priority (merge_availability local canonical))
    × (retention_priority canonical ≤ retention_priority (merge_availability local canonical))
merge_availability-join_example = merge_availability-join local canonical mirrored
