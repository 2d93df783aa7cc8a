-- ===== src/Work/Hygiene/Scope.antt =====
-- What the hygiene check of work.py asks of the repositories.
use mncs_commons.Base.{
  suc, ℕ, String, ◌≡◌, refl, ap, true, false, Option, none, some, List, [], ◌∷◌, arith, eq_iff, eqb,
  length,
}
use mncs_commons.Json.{Fields, get, equals}
use mncs_commons.Result.{Runtime}
use mncs_commons.Work.Hygiene.{
  spreads, hygiene_scope_invalid, primary_repository, affected_repositories,
}

-- Both readings name one and the same repository.
abbrev pub IsSingle : Option String → Option (List String) → Type 0
IsSingle primary affected =
    (repository : String) × (primary ≡ some repository) × (affected ≡ some (repository ∷ []))

spreads-IsSingle :
    (primary : Option String) (affected : Option (List String))
    → spreads primary affected ≡ false
    → IsSingle primary affected
spreads-IsSingle (some p) (some (r ∷ [])) h =
    let same : r ≡ p = ground (arith, eq_iff r p) in (p, refl, ap (λ x. some (x ∷ [])) same)
spreads-IsSingle (some p) (some []) h = cc
spreads-IsSingle (some p) (some (r ∷ q ∷ rs)) h = absurd (too_long (length rs) (ground arith))
  where
    too_long : (n : ℕ) → eqb (suc (suc n)) 1 ≡ true → ⊥
    too_long n e = ground arith
spreads-IsSingle (some p) none h = cc
spreads-IsSingle none affected h = cc

-- Hygiene work that the check lets through, and that is not set aside for reconciliation, has one
-- repository of the family: the primary one, and the only affected one.
pub hygiene-IsSingle :
    (R : Runtime) (details : Fields)
    → hygiene_scope_invalid R details ≡ false
    → equals (get "lane" details) "REPO_HYGIENE" ≡ true
    → equals (get "coordinationState" details) "NEEDS_RECONCILIATION" ≡ false
    → IsSingle (primary_repository R details) (affected_repositories R details)
unfolding hygiene_scope_invalid
hygiene-IsSingle R details h lane active =
    spreads-IsSingle (primary_repository R details) (affected_repositories R details)
      (rw (lane, active) at h)
