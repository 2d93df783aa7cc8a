-- ===== src/Lifecycle/Reachability.antt =====
-- lifecycle.py: chains of events, each an allowed transition out of the state before it, about one
-- record in one domain and new, and the projection of a history.
use mathlib.Core.Path.{subst}
use mncs_commons.Lists.{append-end, append-cons, map-append}
use mncs_commons.Base.{
  map, contains-append, String, ◌≡◌, ◌≢◌, refl, sym, ◌∙◌, ap, true, false, List, [], ◌∷◌, ◌++◌,
  arith, eq_iff, contains, if◌then◌else◌, Bool-cases, inl, inr,
}
use mncs_commons.Json.{Json, text, obj, Fields, end, get, get_or, equals, fields_of}
use mncs_commons.Result.{Runtime, ok, ok-injective}
use mncs_commons.Models.{Diagnostic, valid, str, digest_of}
use mncs_commons.Lifecycle.Table.{allowed-accepted}
use mncs_commons.Lifecycle.{
  Walk, LifecycleView, allowed_transitions, validate_transition, concerns, apply, apply_transition,
  visit, walk, start, initial_state, derive_for_domain, is_known,
}

abbrev pub transition_of : Fields → Fields
transition_of event = fields_of (get_or "transition" (obj end) event)

abbrev pub next_state : Runtime → Fields → String
next_state R event = str R (get_or "to" (text "") (transition_of event))

-- What a report without errors says of the event.
pub record Accepted (R : Runtime) (current : String) (event : Fields) : Type 0 where
  pub allowed : contains (allowed_transitions current) (next_state R event) ≡ true
  pub is_from : equals (get "from" (transition_of event)) current ≡ true
  pub known : is_known current ≡ true

pub valid-Accepted :
    (R : Runtime) (current : String) (event : Fields)
    → valid (validate_transition R current (next_state R event) event) ≡ true
    → Accepted R current event
unfolding validate_transition
valid-Accepted R current event h = record {
  allowed = ground arith;
  is_from = ground arith;
  known = ground arith;
}

-- `IsPart chosen history`: the chosen events stand in the history, each at a place of its own, in
-- that order.
pub data IsPart : List Fields → List Fields → Type 0 where
  nothing : IsPart [] []
  passed :
      (chosen history : List Fields) (event : Fields)
      → IsPart chosen history
      → IsPart chosen (history ++ event ∷ [])
  taken :
      (chosen history : List Fields) (event : Fields)
      → IsPart chosen history
      → IsPart (chosen ++ event ∷ []) (history ++ event ∷ [])

module _ (R : Runtime) (target domain : String) where
  -- `Chain s t es`: from state `s` the events `es` lead to state `t`.
  pub data Chain (s : String) : String → List Fields → Type 0 where
    here : {t : String} {es : List Fields} → t ≡ s → es ≡ [] → Chain s t es
    next :
        {t : String} {es : List Fields} (u : String) (before : List Fields) (event : Fields)
        → Chain s u before
        → concerns R target domain event ≡ true
        → Accepted R u event
        → contains (map (digest_of R) before) (digest_of R event) ≡ false
        → t ≡ next_state R event
        → es ≡ before ++ event ∷ []
        → Chain s t es

  -- What holds of the loop's variables once it has visited the events of `past`.
  record IsSound (initial : String) (past : List Fields) (w : Walk) : Type 0 where
    chosen : List Fields
    chain : Chain initial w.state chosen
    listed : w.applied ≡ map (digest_of R) chosen
    part : IsPart chosen past
    noted : (d : String) → contains w.applied d ≡ true → contains w.seen d ≡ true

  noted_cons :
      (xs seen : List String) (k : String)
      → ((d : String) → contains xs d ≡ true → contains seen d ≡ true)
      → (d : String) → contains (xs ++ k ∷ []) d ≡ true
      → contains (k ∷ seen) d ≡ true
  noted_cons xs seen k h d m = ground (arith, contains-append xs (k ∷ []) d, h d, eq_iff k d)

  -- An event that leaves the state.
  IsSound-passed :
      (initial : String) (past : List Fields) (w v : Walk) (event : Fields)
      → IsSound initial past w
      → v.state ≡ w.state
      → v.applied ≡ w.applied
      → ((d : String) → contains w.seen d ≡ true → contains v.seen d ≡ true)
      → IsSound initial (past ++ event ∷ []) v
  IsSound-passed initial past w v event s state applied seen = record {
    chosen = s.chosen;
    chain = rw state s.chain;
    listed = applied ∙ s.listed;
    part = passed s.chosen past event s.part;
    noted = λ d m. seen d (s.noted d (rw applied at m));
  }

  fresh-chosen :
      (initial : String) (past : List Fields) (w : Walk) (k : String)
      → (s : IsSound initial past w) → contains w.seen k ≡ false
      → contains (map (digest_of R) s.chosen) k ≡ false
  fresh-chosen initial past w k s fresh = rw (← s.listed) (ground (arith, s.noted k))

  -- An event that the loop applies extends the chain; one that it refuses leaves it.
  step-IsSound :
      (initial : String) (past : List Fields) (w : Walk) (event : Fields) (report : List Diagnostic)
      → IsSound initial past w
      → concerns R target domain event ≡ true
      → contains w.seen (digest_of R event) ≡ false
      → (valid report ≡ true → Accepted R w.state event)
      → IsSound initial (past ++ event ∷ []) (
          if valid report
          then record {
            state = next_state R event;
            applied = w.applied ++ digest_of R event ∷ [];
            diagnostics = w.diagnostics;
            seen = digest_of R event ∷ w.seen;
          }
          else record {
            state = w.state;
            applied = w.applied;
            diagnostics = w.diagnostics ++ report;
            seen = digest_of R event ∷ w.seen;
          })
  step-IsSound initial past w event report s c fresh ok_if = elim (Bool-cases (valid report)) [
    | inl yes_valid ↦ rw yes_valid (record {
      chosen = s.chosen ++ event ∷ [];
      chain =
          next w.state s.chosen event s.chain c (ok_if yes_valid)
            (fresh-chosen initial past w _ s fresh) refl refl;
      listed =
          ap (λ ds. ds ++ digest_of R event ∷ []) s.listed
          ∙ sym (map-append (digest_of R) s.chosen event);
      part = taken s.chosen past event s.part;
      noted = noted_cons w.applied w.seen (digest_of R event) s.noted;
    })
    | inr not_valid ↦
        rw not_valid (IsSound-passed initial past w _ event s refl refl (λ d m. ground (arith, m)))
  ]

  apply_transition-IsSound :
      (initial : String) (past : List Fields) (w : Walk) (event : Fields) (j : Json)
      → IsSound initial past w
      → concerns R target domain event ≡ true
      → contains w.seen (digest_of R event) ≡ false
      → get_or "transition" (obj end) event ≡ j
      → IsSound initial (past ++ event ∷ []) (
          apply_transition R
            (digest_of R event)
            event
            (record w { seen = digest_of R event ∷ w.seen })
            j)
  apply_transition-IsSound initial past w event (obj transition) s c fresh e =
      rw (← ap fields_of e) (
        step-IsSound initial past w event (validate_transition R w.state (next_state R event) event)
          s c fresh (valid-Accepted R w.state event))
  apply_transition-IsSound initial past w event _ s c fresh e =
      IsSound-passed initial past w _ event s refl refl (λ d m. ground (arith, m))

  visit-IsSound :
      (initial : String) (past : List Fields) (w : Walk) (event : Fields)
      → IsSound initial past w
      → IsSound initial (past ++ event ∷ []) (visit R target domain w event)
  unfolding visit apply
  visit-IsSound initial past w event s = elim (Bool-cases (contains w.seen (digest_of R event))) [
    | inl old ↦ rw old (IsSound-passed initial past w w event s refl refl (λ d m. m))
    | inr new ↦ rw new (elim (Bool-cases (concerns R target domain event)) [
      | inl about ↦ rw about (apply_transition-IsSound initial past w event _ s about new refl)
      | inr other ↦
          rw other (IsSound-passed initial past w _ event s refl refl (λ d m. ground (arith, m)))
    ])
  ]

  walk-IsSound :
      (initial : String) (past : List Fields) (w : Walk) (events : List Fields)
      → IsSound initial past w
      → IsSound initial (past ++ events) (walk R target domain w events)
  unfolding walk
  walk-IsSound initial past w [] s = subst (λ es. IsSound initial es w) (sym (append-end past)) s
  walk-IsSound initial past w (event ∷ events) s =
      subst (λ es. IsSound initial es (walk R target domain w (event ∷ events)))
        (append-cons past event events)
        (walk-IsSound initial (past ++ event ∷ []) (visit R target domain w event) events
          (visit-IsSound initial past w event s))

-- The events of a history that a projection has applied, from one state to another.
pub record Applied (R : Runtime) (target domain : String) (history : List Fields)
    (view : LifecycleView) (s : String) : Type 0 where
  pub chosen : List Fields
  pub part : IsPart chosen history
  pub listed : view.events ≡ map (digest_of R) chosen
  pub chain : Chain R target domain s view.current_state chosen

-- The event that made a record accepted, and the events before it.
pub record AcceptedBy (R : Runtime) (target domain : String) (history : List Fields)
    (view : LifecycleView) (s : String) : Type 0 where
  pub before : List Fields
  pub last : Fields
  pub part : IsPart (before ++ last ∷ []) history
  pub listed : view.events ≡ map (digest_of R) (before ++ last ∷ [])
  pub chain : Chain R target domain s "verified" before
  pub about : concerns R target domain last ≡ true
  pub step : Accepted R "verified" last
  pub names : next_state R last ≡ "accepted"

accepted-AcceptedBy :
    (R : Runtime) (target domain s : String) (history : List Fields) (view : LifecycleView)
    (chosen : List Fields) (t : String)
    → IsPart chosen history
    → view.events ≡ map (digest_of R) chosen
    → Chain R target domain s t chosen
    → t ≡ "accepted"
    → s ≢ "accepted"
    → AcceptedBy R target domain history view s
accepted-AcceptedBy R target domain s history view chosen t part listed (here e _) a n =
    absurd (n (sym e ∙ a))
accepted-AcceptedBy R target domain s history view chosen t part listed
      (next u before event c about ok_event _ e all) a n =
    let names = sym e ∙ a in
    let at : u ≡ "verified" = allowed-accepted u (rw (sym names) ok_event.allowed) in
    record {
      before = before;
      last = event;
      part = subst (λ es. IsPart es history) all part;
      listed = subst (λ es. view.events ≡ map (digest_of R) es) all listed;
      chain = rw (← at) c;
      about = about;
      step = rw (← at) ok_event;
      names = names;
    }

-- A projection in one domain ends in a state that events of the history lead to from the record's
-- initial state. The view lists their digests; they stand in the history in that order, and each is
-- about this record, in this domain, has another digest than those before it, is allowed by the
-- table from the state before it, and names that state.
pub derive-Chain :
    (R : Runtime) (value : Fields) (events : List Fields) (domain initial : String)
    (view : LifecycleView)
    → initial_state R value ≡ ok initial
    → derive_for_domain R value events domain ≡ ok view
    → Applied R (digest_of R value) domain events view initial
unfolding derive_for_domain
derive-Chain R value events domain initial view start_ok done =
    let s = walk-IsSound R (digest_of R value) domain initial [] (start initial) events (record {
      chosen = [];
      chain = here refl refl;
      listed = refl;
      part = nothing;
      noted = λ d m. cc;
    }) in
    let same = ok-injective (rw start_ok at done) in
    rw (← same) (record { chosen = s.chosen; part = s.part; listed = s.listed; chain = s.chain })

-- A record that is accepted in a domain, and was not from the start, was accepted by the last of the
-- events that the view lists: an event of the history, about this record and in this domain, that
-- names the step from verified to accepted. The events listed before it led the record from its
-- initial state to the verified one.
pub derive-accepted :
    (R : Runtime) (value : Fields) (events : List Fields) (domain initial : String)
    (view : LifecycleView)
    → initial_state R value ≡ ok initial
    → derive_for_domain R value events domain ≡ ok view
    → view.current_state ≡ "accepted"
    → initial ≢ "accepted"
    → AcceptedBy R (digest_of R value) domain events view initial
derive-accepted R value events domain initial view start_ok done a n =
    let p = derive-Chain R value events domain initial view start_ok done in
    accepted-AcceptedBy R (digest_of R value) domain initial events view p.chosen view.current_state
      p.part p.listed p.chain a n
