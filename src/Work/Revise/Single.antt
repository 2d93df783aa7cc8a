-- ===== src/Work/Revise/Single.antt =====
-- `revised_work_record` of work.py on hygiene work, and the repositories that this names.
use mncs_commons.Base.{String, ◌≡◌, refl, true, false}
use mncs_commons.Json.{Fields, get, equals, fields_of}
use mncs_commons.Result.{Runtime, ok}
use mncs_commons.Work.Hygiene.{hygiene_scope_invalid, primary_repository, affected_repositories}
use mncs_commons.Work.Hygiene.Scope.{IsSingle, hygiene-IsSingle}
use mncs_commons.Work.Revise.{revised_work_record}
use mncs_commons.Work.Revise.Inversion.{Parts, revised_work_record-Parts}
use mncs_commons.Work.Revise.Request.{fields-Framed, details_of_next}

module _ {R : Runtime} {now : String} {current transition next : Fields}
    (p : Parts R now current transition next) where
  -- What the code checks before the optional fields holds of the details that it returns.
  hygiene-next : hygiene_scope_invalid R p.details' ≡ false
  unfolding hygiene_scope_invalid primary_repository affected_repositories
  hygiene-next =
      let f = fields-Framed p in
      rw
        (
          f.same "lane" refl,
          f.same "coordinationState" refl,
          f.same "canonicalRepository" refl,
          f.same "repository" refl,
          f.same "canonicalAffectedRepositories" refl,
          f.same "affectedRepositories" refl,
        )
        p.hygiene_ok

-- A revision of hygiene work that is not set aside for reconciliation names one repository of the
-- family: the primary one, and the only affected one.
pub revised-IsSingle :
    (R : Runtime) (now : String) (current transition next : Fields)
    → revised_work_record R now current transition ≡ ok next
    → equals (get "lane" (fields_of (get "details" next))) "REPO_HYGIENE" ≡ true
    → equals (get "coordinationState" (fields_of (get "details" next))) "NEEDS_RECONCILIATION"
      ≡ false
    → IsSingle
        (primary_repository R (fields_of (get "details" next)))
        (affected_repositories R (fields_of (get "details" next)))
revised-IsSingle R now current transition next h lane active =
    let p = revised_work_record-Parts R now current transition next h in
    let lane' = rw (details_of_next p) at lane in
    let active' = rw (details_of_next p) at active in
    rw (details_of_next p) (hygiene-IsSingle R p.details' (hygiene-next p) lane' active')
