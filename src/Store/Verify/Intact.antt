-- ===== src/Store/Verify/Intact.antt =====
-- store.py: the parts of a verification without a diagnostic.
use mncs_commons.Base.{List, [], ◌∷◌, ◌≡◌, refl, ap, ◌∙◌}
use mncs_commons.Json.{null, Fields}
use mncs_commons.Result.{Runtime, Result, ok, err, refused, uncaught, >>=-eq-ok, ok-injective}
use mncs_commons.Lists.{append-nil-left, append-nil-right}
use mncs_commons.Store.{Limits, Transaction, Store, read_rows}
use mncs_commons.Store.Journal.Committed.{read_rows-rows}
use mncs_commons.Store.Verify.{pending, verify_rows, referenced, orphans, checked_rows, verify}

-- The parts of a verification without a diagnostic.
abbrev pub IsIntact : Runtime → Store → Type 0
IsIntact R s =
    (verify_rows R s 1 null s.rows ≡ ok [])
    × (s.transactions ≡ [])
    × (orphans "ORPHAN_RECORD" "records/" (referenced R "record" s.rows) s.records ≡ [])
    × (orphans "ORPHAN_EVENT" "events/" (referenced R "event" s.rows) s.events ≡ [])

pending-nil : (ts : List Transaction) → pending ts ≡ [] → ts ≡ []
pending-nil [] h = refl
pending-nil (t ∷ ts) h = cc

checked-IsIntact :
    (R : Runtime) (s : Store) (read : Result (List Fields))
    → (read ≡ ok s.rows → read ≡ ok s.rows)
    → ((rows : List Fields) → read ≡ ok rows → s.rows ≡ rows)
    → checked_rows R s read ≡ ok []
    → IsIntact R s
unfolding checked_rows
checked-IsIntact R s (err (refused code message)) same rows h = cc
checked-IsIntact R s (err (uncaught name)) same rows h = cc
checked-IsIntact R s (ok read) same rows h =
    let (found, e, r) = >>=-eq-ok (verify_rows R s 1 null read) _ h in
    let all = ok-injective r in
    let l1 = append-nil-left _ _ all in
    let l2 = append-nil-left _ _ l1 in
    let is_read = rows read refl in
    rw is_read (
      (
        e ∙ ap ok (append-nil-right _ _ l2),
        pending-nil s.transactions (append-nil-left _ _ l2),
        append-nil-right _ _ l1,
        append-nil-right _ _ all,
      ))

pub verify-IsIntact : (R : Runtime) (L : Limits) (s : Store) → verify R L s ≡ ok [] → IsIntact R s
unfolding verify
verify-IsIntact R L s h = checked-IsIntact R s (read_rows R L s) (λ e. e) (read_rows-rows R L s) h

pub IsIntact-verify :
    (R : Runtime) (L : Limits) (s : Store)
    → read_rows R L s ≡ ok s.rows
    → IsIntact R s
    → verify R L s ≡ ok []
unfolding verify checked_rows
IsIntact-verify R L s read h = rw (read, h.0, h.1, h.2, h.3) refl
