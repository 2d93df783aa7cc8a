-- ===== src/Store/Verify/Placed.antt =====
-- store.py: the files of records after a commit.
use mncs_commons.Base.{
  String, ◌<>◌, true, false, some, List, [], ◌==◌, ◌≡◌, ap, ◌∙◌, eq_iff, Option-cases, inl, inr,
  is_some, contains, if◌then◌else◌,
}
use mncs_commons.Models.{not-false}
use mncs_commons.Store.{Files, file}
use mncs_commons.Store.Journal.{put_file, collides}
use mncs_commons.Store.Files.{file-put, file-put_new, orphans-put}
use mncs_commons.Store.Verify.{orphans}

-- The files of records after a commit: the record's own is among them, the others are as they were.
abbrev pub grown : String → String → Files → Files
grown stem content files = if is_some (file files stem) then files else put_file stem content files

pub grown-own :
    (stem content : String) (files : Files)
    → collides (file files stem) content ≡ false
    → file (grown stem content files) stem ≡ some content
grown-own stem content files h = elim (Option-cases (file files stem)) [
  | inl none' ↦ rw none' (file-put stem content files)
  | inr (old, is_old) ↦
      let same = not-false (old == content) (rw is_old at h) in
      rw is_old (is_old ∙ ap some ((eq_iff old content).0 same))
]

pub grown-others :
    (stem content : String) (files : Files) (j held : String)
    → file files j ≡ some held
    → file (grown stem content files) j ≡ some held
grown-others stem content files j held h = elim (Option-cases (file files stem)) [
  | inl none' ↦ rw none' (file-put_new stem content files j held none' h)
  | inr (old, is_old) ↦ rw is_old h
]

pub grown-orphans :
    (code path : String) (digests : List String) (stem content : String) (files : Files)
    → contains digests ("sha256:" <> stem) ≡ true
    → orphans code path digests files ≡ []
    → orphans code path digests (grown stem content files) ≡ []
grown-orphans code path digests stem content files c h = elim (Option-cases (file files stem)) [
  | inl none' ↦ rw none' (orphans-put code path digests stem content files c h)
  | inr (old, is_old) ↦ rw is_old h
]
