-- ===== src/Lifecycle/Append.antt =====
-- lifecycle.py: a new event at the end of a history, an event of another record or domain, and the
-- projection in one domain.
use mncs_commons.Base.{
  eq_iff, Bool-cases, inl, inr, String, ◌≡◌, refl, ◌∙◌, ap, true, false, List, [], ◌∷◌, ◌++◌, arith,
  ◌==◌, contains, map,
}
use mncs_commons.Json.{text, Json, obj, Fields, end, get_or, fields_of}
use mncs_commons.Result.{Runtime, Result, ok, err, ◌>>=◌, >>=-eq-ok, ok-injective}
use mncs_commons.Models.{str, valid, digest_of}
use mncs_commons.Lifecycle.{
  Walk, LifecycleView, validate_transition, concerns, apply, apply_transition, visit, walk, start,
  initial_state, derive_for_domain, view_of,
}
use mncs_commons.Lifecycle.Reachability.{next_state}

module _ (R : Runtime) (target domain : String) where
  walk-append :
      (w : Walk) (xs ys : List Fields)
      → walk R target domain w (xs ++ ys) ≡ walk R target domain (walk R target domain w xs) ys
  unfolding walk
  walk-append w [] ys = refl
  walk-append w (x ∷ xs) ys = walk-append (visit R target domain w x) xs ys

  seen-apply :
      (k : String) (event : Fields) (w : Walk) (j : Json)
      → (apply_transition R k event w j).seen ≡ w.seen
  seen-apply k event w (obj transition) = ground arith
  seen-apply k event w _ = refl

  -- The digests that the loop has seen are those of the events that it visited.
  seen-visit :
      (w : Walk) (event : Fields) (k : String)
      → contains w.seen k ≡ false
      → (digest_of R event == k) ≡ false
      → contains (visit R target domain w event).seen k ≡ false
  unfolding visit apply
  seen-visit w event k old other = ground (
    arith,
    seen-apply (digest_of R event) event (record w { seen = digest_of R event ∷ w.seen })
        (get_or "transition" (obj end) event),
  )

  seen-walk :
      (w : Walk) (events : List Fields) (k : String)
      → contains w.seen k ≡ false
      → contains (map (digest_of R) events) k ≡ false
      → contains (walk R target domain w events).seen k ≡ false
  unfolding walk
  seen-walk w [] k old fresh = old
  seen-walk w (event ∷ events) k old fresh =
      seen-walk (visit R target domain w event) events k (seen-visit w event k old (ground arith))
        (ground arith)

  apply_transition-valid :
      (k : String) (event : Fields) (w : Walk) (transition : Fields)
      → get_or "transition" (obj end) event ≡ obj transition
      → valid (validate_transition R w.state (next_state R event) event) ≡ true
      → apply_transition R k event w (obj transition)
        ≡ record w { state = next_state R event; applied = w.applied ++ k ∷ [] }
  apply_transition-valid k event w transition e v =
      let same : fields_of (get_or "transition" (obj end) event) ≡ transition = ap fields_of e in
      rw (← same) (rw v)

  visit-valid :
      (w : Walk) (event transition : Fields)
      → contains w.seen (digest_of R event) ≡ false
      → concerns R target domain event ≡ true
      → get_or "transition" (obj end) event ≡ obj transition
      → valid (validate_transition R w.state (next_state R event) event) ≡ true
      → visit R target domain w event ≡ record w {
        state = next_state R event;
        applied = w.applied ++ digest_of R event ∷ [];
        seen = digest_of R event ∷ w.seen;
      }
  unfolding visit apply
  visit-valid w event transition fresh about e v =
      let noted = record w { seen = digest_of R event ∷ w.seen } in
      rw (fresh, about)
        (ap (apply_transition R (digest_of R event) event noted) e
          ∙ apply_transition-valid (digest_of R event) event noted transition e v)

  pub view-visit_other :
      (w : Walk) (event : Fields)
      → concerns R target domain event ≡ false
      → view_of domain (visit R target domain w event) ≡ view_of domain w
  unfolding visit
  view-visit_other w event other = ground arith

  -- Whether the loop has seen an event with the digest `k` counts for the events with it alone.
  apply-reseen :
      (k : String) (event : Fields) (w : Walk) (z : List String) (j : Json)
      → apply_transition R k event (record w { seen = z }) j
        ≡ record (apply_transition R k event w j) { seen = z }
  apply-reseen k event w z (obj transition) =
      elim (Bool-cases
        (valid (validate_transition R w.state (str R (get_or "to" (text "") transition)) event))) [
          | inl passes ↦ rw passes refl
          | inr fails ↦ rw fails refl
        ]
  apply-reseen k event w z _ = refl

  abbrev AgreeBut : String → List String → List String → Type 0
  AgreeBut k z seen = (d : String) → (d == k) ≡ false → contains z d ≡ contains seen d

  AgreeBut-cons :
      (k e : String) (z seen : List String) → AgreeBut k z seen → AgreeBut k (e ∷ z) (e ∷ seen)
  AgreeBut-cons k e z seen h d other = ground (arith, h d other)

  visit-reseen :
      (w : Walk) (z : List String) (k : String) (event : Fields)
      → AgreeBut k z w.seen
      → (digest_of R event == k) ≡ false
      → (z' : List String) × AgreeBut k z' (visit R target domain w event).seen
        × (visit R target domain (record w { seen = z }) event
            ≡ record (visit R target domain w event) { seen = z' })
  unfolding visit apply
  visit-reseen w z k event same other = elim (Bool-cases (contains w.seen (digest_of R event))) [
    | inl old ↦ (z, rw old same, rw (same (digest_of R event) other, old) refl)
    | inr new ↦ elim (Bool-cases (concerns R target domain event)) [
      | inl about ↦
          let noted = record w { seen = digest_of R event ∷ w.seen } in
          let j = get_or "transition" (obj end) event in
          (
            digest_of R event ∷ z,
            rw (new, about)
                (rw (seen-apply (digest_of R event) event noted j)
                  (AgreeBut-cons k (digest_of R event) z w.seen same)),
            rw (same (digest_of R event) other, new, about)
                (apply-reseen (digest_of R event) event noted (digest_of R event ∷ z) j),
          )
      | inr foreign ↦ (
        digest_of R event ∷ z,
        rw (new, foreign) (AgreeBut-cons k (digest_of R event) z w.seen same),
        rw (same (digest_of R event) other, new, foreign) refl,
      )
    ]
  ]

  walk-reseen :
      (w : Walk) (z : List String) (k : String) (events : List Fields)
      → AgreeBut k z w.seen
      → contains (map (digest_of R) events) k ≡ false
      → view_of domain (walk R target domain (record w { seen = z }) events)
        ≡ view_of domain (walk R target domain w events)
  unfolding walk
  walk-reseen w z k [] same free = refl
  walk-reseen w z k (event ∷ events) same free =
      let (z', next, e) = visit-reseen w z k event same (ground arith) in
      rw (walk, e) (walk-reseen (visit R target domain w event) z' k events next (ground arith))

  -- An event of another record or domain, in front of events with other digests.
  view-walk_other :
      (w : Walk) (event : Fields) (events : List Fields)
      → concerns R target domain event ≡ false
      → contains (map (digest_of R) events) (digest_of R event) ≡ false
      → view_of domain (walk R target domain (visit R target domain w event) events)
        ≡ view_of domain (walk R target domain w events)
  unfolding visit
  view-walk_other w event events other free =
      elim (Bool-cases (contains w.seen (digest_of R event))) [
        | inl old ↦ rw old refl
        | inr new ↦
            rw (new, other)
              (walk-reseen w (digest_of R event ∷ w.seen) (digest_of R event) events
                (λ d apart.
                  ground (arith, eq_iff d (digest_of R event), eq_iff (digest_of R event) d))
                free)
      ]

bind-ext {ℓ κ} :
    {A : Type ℓ} {B : Type κ} (m : Result A) (f g : A → Result B)
    → ((a : A) → f a ≡ g a)
    → (m >>= f) ≡ (m >>= g)
bind-ext (ok a) f g h = h a
bind-ext (err e) f g h = refl

-- An event that is new, about this record and in this domain, and passes the check against the
-- projected state, moves the projection to the state that it names and is listed last. The
-- diagnostics of the projection stay.
pub derive-append :
    (R : Runtime) (value : Fields) (events : List Fields) (domain : String)
    (event transition : Fields) (view : LifecycleView)
    → derive_for_domain R value events domain ≡ ok view
    → contains (map (digest_of R) events) (digest_of R event) ≡ false
    → concerns R (digest_of R value) domain event ≡ true
    → get_or "transition" (obj end) event ≡ obj transition
    → valid (validate_transition R view.current_state (next_state R event) event) ≡ true
    → derive_for_domain R value (events ++ event ∷ []) domain
      ≡ ok (record view {
        current_state = next_state R event;
        events = view.events ++ digest_of R event ∷ [];
      })
unfolding derive_for_domain walk
derive-append R value events domain event transition view done fresh about is_obj v =
    let target = digest_of R value in
    let (initial, starts, ends) = >>=-eq-ok (initial_state R value) _ done in
    let same = ok-injective ends in
    let w = walk R target domain (start initial) events in
    let new = seen-walk R target domain (start initial) events (digest_of R event) refl fresh in
    let moved =
      visit-valid R target domain w event transition new about is_obj (rw (← same) at v) in
    rw (starts, walk-append) (rw moved (rw (← same)))

-- An event of another record or domain does not change the projection, wherever it stands in the
-- history, if no event after it has the same digest.
pub derive-append_other :
    (R : Runtime) (value : Fields) (before after : List Fields) (domain : String) (event : Fields)
    → concerns R (digest_of R value) domain event ≡ false
    → contains (map (digest_of R) after) (digest_of R event) ≡ false
    → derive_for_domain R value (before ++ event ∷ after) domain
      ≡ derive_for_domain R value (before ++ after) domain
unfolding derive_for_domain walk
derive-append_other R value before after domain event other free =
    bind-ext (initial_state R value) _ _ λ initial.
      rw
        (
          walk-append R (digest_of R value) domain (start initial) before (event ∷ after),
          walk-append R (digest_of R value) domain (start initial) before after,
        )
        (ap ok (
          view-walk_other R (digest_of R value) domain
            (walk R (digest_of R value) domain (start initial) before) event after other free))
