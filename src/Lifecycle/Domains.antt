-- ===== src/Lifecycle/Domains.antt =====
-- lifecycle.py: domains as they are compared. An event's domain is stripped, the one asked for is not.
use mncs_commons.Base.{
  String, ◌≡◌, ◌≢◌, refl, ap, ◌∙◌, true, false, List, [], ◌∷◌, arith, eq_iff, strip, strip-strip,
  Bool-cases, inl, inr, none,
}
use mncs_commons.Json.{Json, obj, Fields, get}
use mncs_commons.Result.{Runtime, ok}
use mncs_commons.Models.{str, digest_of}
use mncs_commons.Lifecycle.Append.{view-visit_other}
use mncs_commons.Lifecycle.{
  Walk, event_domain, is_this, concerns, non_empty, visit, walk, start, initial_state,
  derive_for_domain, view_of,
}

of_authority-strip :
    (R : Runtime) (j : Json) (d : String)
    → is_this
        (elim j [ obj authority ↦ non_empty (strip (str R (get "domain" authority))) | _ ↦ none ])
        d
      ≡ true
    → strip d ≡ d
of_authority-strip R (obj authority) d h =
    let same : strip (str R (get "domain" authority)) ≡ d =
      ground (arith, eq_iff (strip (str R (get "domain" authority))) d) in
    rw (← same) (strip-strip _)
of_authority-strip R _ d h = cc

event_domain-strip :
    (R : Runtime) (event : Fields) (d : String)
    → is_this (event_domain R event) d ≡ true
    → strip d ≡ d
unfolding event_domain
event_domain-strip R event d h = of_authority-strip R (get "authority" event) d h

module _ (R : Runtime) (target domain : String) (padded : strip domain ≢ domain) where
  concerns-padded : (event : Fields) → concerns R target domain event ≡ false
  concerns-padded event = elim (Bool-cases (is_this (event_domain R event) domain)) [
    | inl this ↦ absurd (padded (event_domain-strip R event domain this))
    | inr other ↦ ground arith
  ]

  view-walk :
      (w : Walk) (events : List Fields)
      → view_of domain (walk R target domain w events) ≡ view_of domain w
  unfolding walk
  view-walk w [] = refl
  view-walk w (event ∷ events) =
      view-walk (visit R target domain w event) events
      ∙ view-visit_other R target domain w event (concerns-padded event)

-- Asked for a domain with white space at its ends, the projection is the initial state and lists
-- no event, whatever the history holds.
pub derive-padded :
    (R : Runtime) (value : Fields) (events : List Fields) (domain initial : String)
    → strip domain ≢ domain
    → initial_state R value ≡ ok initial
    → derive_for_domain R value events domain ≡ ok (view_of domain (start initial))
unfolding derive_for_domain
derive-padded R value events domain initial padded starts =
    rw starts (ap ok (view-walk R (digest_of R value) domain padded (start initial) events))
