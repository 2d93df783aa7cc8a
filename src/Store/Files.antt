-- ===== src/Store/Files.antt =====
-- store.py: content files, by the digest of what they hold.
use package.text.Mathlib.Text.{starts_with}
use package.text.Mathlib.TextLemmas.{cons-append, nil-append}
use Prim.Native.String.count
use Prim.Native.String.{count}
use mncs_commons.Base.{
  ap, String, ◌<>◌, true, none, some, List, [], ◌∷◌, ◌==◌, ◌≡◌, refl, arith, eq_iff, eq_refl,
  Bool-cases, inl, inr, contains, skip,
}
use package.text.Mathlib.TextEquality.{starts_with_iff}
use mncs_commons.Json.{text}
use mncs_commons.Lists.{append-nil, append-nil-left, append-nil-right}
use mncs_commons.Models.{report_if-not, report_if-nil, not-false}
use mncs_commons.Validation.{valid_digest}
use mncs_commons.Store.{Files, file, stem_of}
use mncs_commons.Store.Journal.{put_file}
use mncs_commons.Store.Verify.{orphans}

skip-append : (t u : String) → skip (count t) (t <> u) ≡ u
skip-append String.[] u = nil-append u
skip-append (String.◌∷◌ c t) u = rw (count.cons c t, cons-append c t u) (skip-append t u)

-- The file of a digest is named by the rest of it.
pub stem_of-digest : (s : String) → valid_digest (text s) ≡ true → "sha256:" <> stem_of s ≡ s
unfolding valid_digest stem_of
stem_of-digest s h =
    let begins : starts_with s "sha256:" ≡ true = ground arith in
    let (rest, same) = (starts_with_iff s "sha256:").0 begins in
    rw begins (rw (← same) (ap (λ u. "sha256:" <> u) (skip-append "sha256:" rest)))

pub file-put :
    (stem content : String) (files : Files) → file (put_file stem content files) stem ≡ some content
unfolding put_file
file-put stem content [] = ground (arith, eq_refl stem)
file-put stem content ((k, old) ∷ rest) = ground (arith, file-put stem content rest)

-- A new file leaves the others.
pub file-put_new :
    (stem content : String) (files : Files) (j held : String)
    → file files stem ≡ none
    → file files j ≡ some held
    → file (put_file stem content files) j ≡ some held
unfolding put_file
file-put_new stem content [] j held n h = cc
file-put_new stem content ((k, old) ∷ rest) j held n h =
    ground (arith, eq_iff k stem, eq_iff k j, file-put_new stem content rest j held)

pub orphans-put :
    (code path : String) (digests : List String) (stem content : String) (files : Files)
    → contains digests ("sha256:" <> stem) ≡ true
    → orphans code path digests files ≡ []
    → orphans code path digests (put_file stem content files) ≡ []
unfolding put_file orphans
orphans-put code path digests stem content [] c h = rw c refl
orphans-put code path digests stem content ((k, old) ∷ rest) c h = elim (Bool-cases (k == stem)) [
  | inl here ↦ rw here h
  | inr other ↦ rw other (
      append-nil _ _ (append-nil-left _ _ h)
        (orphans-put code path digests stem content rest c (append-nil-right _ _ h)))
]

pub orphans-more :
    (code path : String) (digests more : List String) (files : Files)
    → ((d : String) → contains digests d ≡ true → contains more d ≡ true)
    → orphans code path digests files ≡ []
    → orphans code path more files ≡ []
unfolding orphans
orphans-more code path digests more [] sub h = refl
orphans-more code path digests more ((k, old) ∷ rest) sub h =
    let linked = not-false _ (report_if-nil _ _ _ _ (append-nil-left _ _ h)) in
    append-nil _ _ (report_if-not _ _ _ _ (sub ("sha256:" <> k) linked))
      (orphans-more code path digests more rest sub (append-nil-right _ _ h))
