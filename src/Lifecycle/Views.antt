-- ===== src/Lifecycle/Views.antt =====
-- lifecycle.py: the view of all domains together.
use mncs_commons.Base.{
  String, ◌≡◌, ◌≢◌, refl, sym, ◌∙◌, ap, Bool, true, false, none, some, List, [], ◌∷◌, arith, eq_iff,
  ◌==◌, map, or_else, if◌then◌else◌,
}
use mncs_commons.Json.{Fields}
use mncs_commons.Result.{Runtime, ok, >>=-eq-ok, ok-injective}
use mncs_commons.Lists.{Every, each-Every}
use mncs_commons.Models.{digest_of}
use mncs_commons.Lifecycle.{
  LifecycleView, derive_for_domain, derive_lifecycle, domain_views, domains, is_empty,
  domain_scoped_state, initial_state,
}

-- A pair of a domain and its state, as the projection in that domain has it.
abbrev pub IsDomainState : Runtime → Fields → List Fields → (String × String) → Type 0
IsDomainState R value events pair =
    (view : LifecycleView) × (derive_for_domain R value events pair.0 ≡ ok view)
    × (pair.1 ≡ view.current_state)

derive-domain :
    (R : Runtime) (value : Fields) (events : List Fields) (domain : String) (view : LifecycleView)
    → derive_for_domain R value events domain ≡ ok view
    → view.domain ≡ some domain
unfolding derive_for_domain
derive-domain R value events domain view h =
    let (initial, e, r) = >>=-eq-ok (initial_state R value) _ h in
    ap (λ v. v.domain) (sym (ok-injective r))

abbrev pair_of : LifecycleView → String × String
pair_of v = (or_else v.domain "", v.current_state)

derive-IsDomainState :
    (R : Runtime) (value : Fields) (events : List Fields) (domain : String) (view : LifecycleView)
    → derive_for_domain R value events domain ≡ ok view
    → IsDomainState R value events (pair_of view)
derive-IsDomainState R value events domain view h =
    let same : or_else view.domain "" ≡ domain =
      ap (λ o. or_else o "") (derive-domain R value events domain view h) in
    (view, ap (derive_for_domain R value events) same ∙ h, refl)

map-Every :
    (P : (String × String) → Type 0) (views : List LifecycleView)
    → Every (λ v. P (pair_of v)) views
    → Every P (map pair_of views)
map-Every P [] h = tt
map-Every P (v ∷ vs) h = (h.0, map-Every P vs h.1)

distinct_texts : (s t : String) → (s == t) ≡ false → s ≢ t
distinct_texts s t h = ground (arith, eq_iff s t)

scoped-not_accepted : (b : Bool) → (if b then "proposed" else domain_scoped_state) ≢ "accepted"
scoped-not_accepted true = distinct_texts "proposed" "accepted" refl
scoped-not_accepted false = distinct_texts domain_scoped_state "accepted" refl

-- The view of all domains is in no accepted state, whatever the events say, and each pair of a
-- domain and a state in it is that of the projection in that domain.
pub derive_lifecycle-IsDomainState :
    (R : Runtime) (value : Fields) (events : List Fields) (view : LifecycleView)
    → derive_lifecycle R value events none ≡ ok view
    → (view.current_state ≢ "accepted") × Every (IsDomainState R value events) view.domain_states
unfolding derive_lifecycle domain_views
derive_lifecycle-IsDomainState R value events view h =
    let (views, e, r) = >>=-eq-ok (domain_views R value events) _ h in
    rw (← ok-injective r) (
      (
        scoped-not_accepted (is_empty views),
        map-Every (IsDomainState R value events) views (
            each-Every (derive_for_domain R value events)
              (λ v. IsDomainState R value events (pair_of v)) (derive-IsDomainState R value events)
              (domains R (digest_of R value) events) views e),
      ))
