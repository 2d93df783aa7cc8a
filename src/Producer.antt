-- ===== src/Producer.antt =====
-- src/mncs_commons/family.py: references to records that other projects own, and where a record
-- holds them.
pub mod Texts
pub mod Artifacts
pub mod Settled
use package.text.Mathlib.Text.{starts_with}
use mncs_commons.Base.{
  ◌++◌, ℕ, String, ◌<>◌, Bool, not, ◌&&◌, Option, none, some, List, [], ◌∷◌, contains, count, eqb,
  leb, is_blank, has_nul, strip, is_hex, skip, if◌then◌else◌,
}
use mncs_commons.Json.{truthy, Json, null, text, obj, Fields, end, field, get, get_or, equals, keys}
use mncs_commons.Result.{Result, ok, err, refused, require, ◌>>=◌, ◌>>◌}
use mncs_commons.Lifecycle.{insert_sorted}
use mncs_commons.Work.Revise.{listed}

-- `FAMILY_REFERENCE_SCHEMA`
abbrev pub family_reference_schema : String
family_reference_schema = "commons.mncs.dev/producer-reference/v0alpha1"

-- `raise FamilyRecordError(message)`
abbrev pub family_record_error : String
family_record_error = "FAMILY_RECORD"

-- The test of `_text`, for a text.
unfoldable pub is_family_text : ℕ → String → Bool
is_family_text maximum s = not (is_blank s) && leb (count s) maximum && not (has_nul s)

-- `_text`
unfoldable pub family_text : ℕ → String → Json → Result String
family_text maximum name (text s) =
    if is_family_text maximum s
    then ok (strip s)
    else err (refused family_record_error (name <> " must be bounded non-empty text"))
family_text maximum name _ =
    err (refused family_record_error (name <> " must be bounded non-empty text"))

-- `sorted(set(value) - allowed)`
unfoldable pub unknown_keys : List String → List String → List String
unknown_keys allowed [] = []
unknown_keys allowed (k ∷ ks) =
    let rest = unknown_keys allowed ks in if contains allowed k then rest else insert_sorted k rest

-- `", ".join(items)`
abbrev pub comma_joined : List String → String
comma_joined [] = ""
comma_joined (s ∷ []) = s
comma_joined (s ∷ t ∷ rest) = s <> ", " <> comma_joined (t ∷ rest)

abbrev refuse_unknown : String → List String → Result (Unit {0})
refuse_unknown what [] = ok tt
refuse_unknown what unknown =
    err (refused family_record_error (what <> " has unknown fields: " <> comma_joined unknown))

-- The `artifact` of a reference, and a reference, as `normalize_producer_reference` builds them.
pub record Artifact : Type 0 where
  pub identity : String
  pub kind : String
  pub digest : Option String
  pub location : Option String

pub record ProducerReference : Type 0 where
  pub producer : String
  pub record_kind : String
  pub schema_version : String
  pub stable_id : String
  pub content_digest : Option String
  pub artifact : Option Artifact
  pub scope : Option Fields

-- `value is not None` before a text is read
unfoldable pub family_text_if_given : ℕ → String → Json → Result (Option String)
unfolding family_text
family_text_if_given maximum name null = ok none
family_text_if_given maximum name value = do s ← family_text maximum name value; ok (some s)

abbrev pub is_reference_digest : String → Bool
is_reference_digest s = starts_with s "sha256:" && eqb (count s) 71

unfoldable pub exact_digest : Option String → Result (Option String)
exact_digest none = ok none
exact_digest (some s) = do
  require (is_reference_digest s) family_record_error "contentDigest must be a sha256: identity"
  require (is_hex (skip 7 s)) family_record_error "contentDigest must be lowercase hexadecimal"
  ok (some s)

unfoldable pub read_digest : Json → Result (Option String)
unfolding family_text_if_given exact_digest
read_digest value = do digest ← family_text_if_given 80 "contentDigest" value; exact_digest digest

unfoldable pub read_artifact : Json → Result (Option Artifact)
unfolding family_text family_text_if_given unknown_keys
read_artifact null = ok none
read_artifact (obj artifact) = do
  refuse_unknown "artifact reference"
      (unknown_keys ("identity" ∷ "kind" ∷ "digest" ∷ "location" ∷ []) (keys artifact))
  identity ← family_text 2048 "artifact.identity" (get "identity" artifact)
  kind ← family_text 256 "artifact.kind" (get "kind" artifact)
  digest ← family_text_if_given 256 "artifact.digest" (get "digest" artifact)
  location ← family_text_if_given 4096 "artifact.location" (get "location" artifact)
  ok (some (record { identity = identity; kind = kind; digest = digest; location = location }))
read_artifact _ = err (refused family_record_error "artifact must be an object")

unfoldable pub read_scope : Json → Result (Option Fields)
read_scope null = ok none
read_scope (obj scope) = ok (some scope)
read_scope _ = err (refused family_record_error "scope must be an object")

abbrev pub reference_fields : List String
reference_fields =
    "schema" ∷ "producer" ∷ "recordKind" ∷ "schemaVersion" ∷ "stableId" ∷ "contentDigest"
    ∷ "artifact" ∷ "scope" ∷ []

-- What `normalize_producer_reference` reads, before it is written as a dict.
unfoldable pub read_reference : Fields → Result ProducerReference
unfolding family_text read_digest read_artifact read_scope unknown_keys
read_reference value = do
  refuse_unknown "producer reference" (unknown_keys reference_fields (keys value))
  require (equals (get_or "schema" (text family_reference_schema) value) family_reference_schema)
      family_record_error "producer reference schema is unsupported"
  producer ← family_text 256 "producer" (get "producer" value)
  record_kind ← family_text 256 "recordKind" (get "recordKind" value)
  schema_version ← family_text 256 "schemaVersion" (get "schemaVersion" value)
  stable_id ← family_text 2048 "stableId" (get "stableId" value)
  content_digest ← read_digest (get "contentDigest" value)
  artifact ← read_artifact (get "artifact" value)
  scope ← read_scope (get "scope" value)
  ok (record {
    producer = producer;
    record_kind = record_kind;
    schema_version = schema_version;
    stable_id = stable_id;
    content_digest = content_digest;
    artifact = artifact;
    scope = scope;
  })

abbrev with_text : String → Option String → Fields → Fields
with_text name none fs = fs
with_text name (some s) fs = field name (text s) fs

abbrev pub artifact_fields : Artifact → Fields
artifact_fields a =
    field "identity" (text a.identity) (
      field "kind" (text a.kind)
        (with_text "digest" a.digest (with_text "location" a.location end)))

abbrev with_artifact : Option Artifact → Fields → Fields
with_artifact none fs = fs
with_artifact (some a) fs = field "artifact" (obj (artifact_fields a)) fs

abbrev with_scope : Option Fields → Fields → Fields
with_scope none fs = fs
with_scope (some scope) fs = field "scope" (obj scope) fs

-- The dict that it returns.
abbrev pub reference_dict : ProducerReference → Fields
reference_dict r = field "schema" (text family_reference_schema) (
    field "producer" (text r.producer) (
      field "recordKind" (text r.record_kind) (
        field "schemaVersion" (text r.schema_version) (
          field "stableId" (text r.stable_id) (
            with_text "contentDigest" r.content_digest
              (with_artifact r.artifact (with_scope r.scope end)))))))

unfoldable pub normalize_producer_reference : Fields → Result Fields
unfolding read_reference
normalize_producer_reference value = do
  reference ← read_reference value
  ok (reference_dict reference)

-- `for … in value or []`
unfoldable pub or_empty : Json → Result (List Json)
or_empty value = if truthy value then listed value else ok []

-- The `reference` of an entry, if both are objects.
abbrev reference_of : Json → List Fields
reference_of (obj entry) = elim (get "reference" entry) [ obj reference ↦ reference ∷ [] | _ ↦ [] ]
reference_of _ = []

abbrev references_of : List Json → List Fields
references_of [] = []
references_of (entry ∷ entries) = reference_of entry ++ references_of entries

abbrev objects_of : List Json → List Fields
objects_of [] = []
objects_of (obj item ∷ items) = item ∷ objects_of items
objects_of (_ ∷ items) = objects_of items

-- The references that `normalize_producer_reference` does not refuse.
unfoldable pub accepted : List Fields → List ProducerReference
unfolding read_reference
accepted [] = []
accepted (item ∷ items) = elim (read_reference item) [
  | ok reference ↦ reference ∷ accepted items
  | err raised ↦ accepted items
]

abbrev references_in : Json → Result (List ProducerReference)
unfolding or_empty accepted
references_in (obj details) = do
  entries ← or_empty (get "references" details)
  actors ← or_empty (get "actors" details)
  evidence ← or_empty (get "evidenceReferences" details)
  ok (
      accepted (
        references_of entries
        ++ references_of actors
        ++ objects_of (get "failureReference" details ∷ get "classifier" details ∷ [])
        ++ objects_of evidence))
references_in _ = ok []

unfoldable pub producer_references : Fields → Result (List ProducerReference)
unfolding or_empty accepted
producer_references value = references_in (get "details" value)
