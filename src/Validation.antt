-- ===== src/Validation.antt =====
-- src/mncs_commons/validation.py: the small checks that records and events share. Each returns the
-- diagnostics that the code appends.
pub mod Common
pub mod References
pub mod Details
pub mod Documents
pub mod Sound
use package.text.Mathlib.Text.{starts_with}
use mncs_commons.Base.{
  ℕ, zero, suc, pos, negsuc, ◌+◌, String, ◌<>◌, Bool, true, false, not, ◌&&◌, ◌||◌, Option, none,
  some, List, [], ◌∷◌, ◌++◌, ◌==◌, all, any, contains, count, eqb, is_blank, is_hex, skip, leb,
  if◌then◌else◌,
}
use mncs_commons.Json.{
  Json, null, bool, num, text, arr, obj, Fields, field, get, get_or, has, is_mapping, is_text,
  is_list, items_of, keys, to_list, fields_of,
}
use mncs_commons.Result.{Runtime}
use mncs_commons.Models.{Diagnostic, diagnostic, report_if, str}
use mncs_commons.Canonical.{decimal}
use mncs_commons.Lane.{in_texts}
use mncs_commons.Work.Submit.Readers.{with_offset}

-- `API_VERSION` of models.py
abbrev pub api_version : String
api_version = "commons.mncs.dev/v0alpha1"

-- `protocol_spec(value) is not None` of protocol.py
unfoldable pub is_supported_version : Runtime → Json → Bool
is_supported_version R v = str R v == api_version

-- `_valid_digest`
unfoldable pub valid_digest : Json → Bool
valid_digest (text s) = starts_with s "sha256:" && eqb (count s) 71 && is_hex (skip 7 s)
valid_digest _ = false

-- `if _require_object(value, path, diagnostics): …`
abbrev pub object_checks : String → (Fields → List Diagnostic) → Json → List Diagnostic
object_checks path checks (obj fs) = checks fs
object_checks path checks _ = diagnostic "TYPE_OBJECT" path "must be an object" ∷ []

abbrev pub is_solid_text : Json → Bool
is_solid_text (text s) = not (is_blank s)
is_solid_text _ = false

-- `_require_string`
unfoldable pub string_checks : String → Json → List Diagnostic
string_checks path v =
    report_if (not (is_solid_text v)) "TYPE_STRING" path "must be a non-empty string"

-- `_check_keys`
unfoldable pub unknown_fields : List String → String → List String → List Diagnostic
unknown_fields allowed path [] = []
unknown_fields allowed path (k ∷ ks) =
    report_if (not (contains allowed k)) "UNKNOWN_FIELD" (path <> "." <> k)
      "field is not defined by v0alpha1"
    ++ unknown_fields allowed path ks

unfoldable pub key_checks : List String → String → Fields → List Diagnostic
unfolding unknown_fields
key_checks allowed path value = unknown_fields allowed path (keys value)

-- An instant with a time zone.
abbrev is_instant : Option (Bool × String) → Bool
is_instant none = false
is_instant (some (zoned, utc)) = zoned

abbrev instant_checks : Runtime → String → Json → List Diagnostic
instant_checks R path (text s) =
    report_if (not (is_instant (R.instant (with_offset s)))) "INVALID_TIMESTAMP" path
      "must be an ISO-8601 timestamp with timezone"
instant_checks R path _ = []

-- `_check_timestamp`
unfoldable pub timestamp_checks : Runtime → String → Json → List Diagnostic
unfolding string_checks
timestamp_checks R path v =
    if is_solid_text v then instant_checks R path v else string_checks path v

-- `isinstance(value, list) and all(isinstance(x, str) for x in value)`
abbrev pub is_texts : Json → Bool
is_texts (arr items) = all is_text (to_list items)
is_texts _ = false

-- `isinstance(value, int) and not isinstance(value, bool) and value >= 1`
abbrev pub is_positive : Json → Bool
is_positive (num (pos (suc n))) = true
is_positive _ = false

unfoldable pub author_checks : Fields → List Diagnostic
unfolding string_checks
author_checks author =
    string_checks "metadata.author.type" (get "type" author)
    ++ string_checks "metadata.author.id" (get "id" author)

-- `_check_metadata` of an object
unfoldable pub metadata_fields : Runtime → Fields → List Diagnostic
unfolding key_checks timestamp_checks author_checks valid_digest
metadata_fields R value =
    key_checks ("recordId" ∷ "createdAt" ∷ "author" ∷ "labels" ∷ "revision" ∷ "previousDigest" ∷ [])
      "metadata" value
    ++ timestamp_checks R "metadata.createdAt" (get "createdAt" value)
    ++ object_checks "metadata.author" author_checks (get "author" value)
    ++ report_if (has "labels" value && not (is_texts (get "labels" value))) "TYPE_LABELS"
        "metadata.labels" "must be a list of strings"
    ++ report_if (has "revision" value && not (is_positive (get "revision" value)))
        "INVALID_REVISION" "metadata.revision" "must be a positive integer"
    ++ report_if (has "previousDigest" value && not (valid_digest (get "previousDigest" value)))
        "INVALID_DIGEST" "metadata.previousDigest" "must be a sha256: digest"

-- `_check_metadata`
unfoldable pub metadata_checks : Runtime → Json → List Diagnostic
unfolding metadata_fields
metadata_checks R = object_checks "metadata" (metadata_fields R)

-- `f"{path}[{index}]"`
unfoldable pub indexed : String → ℕ → String
indexed path n = path <> "[" <> decimal n <> "]"

-- `for index, item in enumerate(items): …`, from the index `n` on.
module _ (checks : String → Json → List Diagnostic) where
  unfoldable pub each_checks : String → ℕ → List Json → List Diagnostic
  unfolding indexed
  each_checks path n [] = []
  each_checks path n (item ∷ items) = checks (indexed path n) item ++ each_checks path (n + 1) items

-- `ResultStatus`
abbrev pub result_statuses : List String
result_statuses = "PASS" ∷ "FAIL" ∷ "UNKNOWN" ∷ []

abbrev evidence_fields : String → Fields → List Diagnostic
unfolding string_checks
evidence_fields path item =
    string_checks (path <> ".id") (get "id" item)
    ++ report_if (has "status" item && not (in_texts result_statuses (get "status" item)))
        "INVALID_STATUS" (path <> ".status") "must be PASS, FAIL, or UNKNOWN"

unfoldable pub evidence_item : String → Json → List Diagnostic
unfolding string_checks
evidence_item path = object_checks path (evidence_fields path)

-- `_check_evidence`
unfoldable pub evidence_checks : String → Json → List Diagnostic
unfolding each_checks evidence_item
evidence_checks path (arr items) = each_checks evidence_item path 0 (to_list items)
evidence_checks path _ = diagnostic "TYPE_ARRAY" path "must be a list" ∷ []
