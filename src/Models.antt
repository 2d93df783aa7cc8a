-- ===== src/Models.antt =====
-- Shapes shared by the components: `Diagnostic` of src/mncs_commons/models.py, the report of
-- src/mncs_commons/diagnostics.py, and Python's `str` of a document.
use mncs_commons.Base.{
  String, Bool, true, false, not, List, [], ◌∷◌, ◌==◌, any, if◌then◌else◌, ◌≡◌, refl,
}
use mncs_commons.Json.{Json, text, obj, end, Fields, get, get_or, truthy}
use mncs_commons.Result.{Runtime, Result, ok, err, uncaught}
use mncs_commons.Canonical.{canonical_digest}

pub record Diagnostic : Type 0 where
  pub code : String
  pub path : String
  pub message : String
  pub severity : String

-- `Diagnostic(code, path, message)`
abbrev pub diagnostic : String → String → String → Diagnostic
diagnostic code path message = record {
  code = code;
  path = path;
  message = message;
  severity = "error";
}

-- `ValidationReport.valid`
abbrev pub valid : List Diagnostic → Bool
valid ds = not (any (λ d. d.severity == "error") ds)

-- `if condition: diagnostics.append(Diagnostic(…))`
abbrev pub report_if : Bool → String → String → String → List Diagnostic
report_if true code path message = diagnostic code path message ∷ []
report_if false code path message = []

-- `str(value)`
abbrev pub str : Runtime → Json → String
str R (text s) = s
str R v = R.repr v

-- `value.get(key, {})` where the result is used as a dict at once.
abbrev pub as_dict : Json → Result Fields
as_dict (obj fs) = ok fs
as_dict v = err (uncaught "AttributeError")

unfoldable pub child : String → Fields → Result Fields
child k fs = as_dict (get_or k (obj end) fs)

-- `str(value.get("contentDigest") or canonical_digest(value))`
unfoldable pub digest_of : Runtime → Fields → String
digest_of R value =
    let d = get "contentDigest" value in if truthy d then str R d else canonical_digest R value

-- A check that reports nothing.
pub report_if-nil : (b : Bool) (c p m : String) → report_if b c p m ≡ [] → b ≡ false
report_if-nil true c p m h = cc
report_if-nil false c p m h = refl

pub not-false : (b : Bool) → not b ≡ false → b ≡ true
not-false true h = refl
not-false false h = cc

pub report_if-not : (b : Bool) (c p m : String) → b ≡ true → report_if (not b) c p m ≡ []
report_if-not true c p m h = refl
report_if-not false c p m h = cc
