-- ===== src/Store/Recover/Appended.antt =====
-- store.py: what `recover` does to the ledger, whichever transactions are pending.
use mathlib.Core.Path.{subst}
use mncs_commons.Store.Recover.{
  message_of, diagnostic, verify, is_caught, verified_unless, recover, Diagnostic, recover_each,
  Journal, verify_journal, recover_one,
}
use mncs_commons.Lists.{append-end, append-cons}
use mncs_commons.Base.{Bool-cases, List, [], ◌∷◌, ◌++◌, ◌≡◌, refl, sym, ap, ◌∙◌, inl, inr}
use mncs_commons.Json.{Fields}
use mncs_commons.Result.{>>=-eq-ok, ok-injective, Runtime, Result, ok, err, Error}
use mncs_commons.Store.{Limits, Transaction, Store}
use mncs_commons.Store.Recover.Restored.{recover_one-IsPlaced}

-- The rows are those of journals that were verified, of some of the transactions, in their order.
pub data Recovered (R : Runtime) (L : Limits) : List Transaction → List Fields → Type 0 where
  stopped : (ts : List Transaction) → Recovered R L ts []
  held :
      (t : Transaction) (ts : List Transaction) (rows : List Fields)
      → Recovered R L ts rows
      → Recovered R L (t ∷ ts) rows
  placed :
      (t : Transaction) (ts : List Transaction) (rows : List Fields) (j : Journal)
      → verify_journal R L t ≡ ok j
      → Recovered R L ts rows
      → Recovered R L (t ∷ ts) (j.row ∷ rows)

-- The ledger of the one store is that of the other with recovered rows at its end.
abbrev pub IsAppended : Runtime → Limits → List Transaction → Store → Store → Type 0
IsAppended R L ts s after =
    (more : List Fields) × (after.rows ≡ s.rows ++ more) × Recovered R L ts more

data Outcome {A : Type 0} (r : Result A) : Type 0 where
  returned : (v : A) → r ≡ ok v → Outcome r
  raised : (e : Error) → r ≡ err e → Outcome r

outcome : {A : Type 0} (r : Result A) → Outcome r
outcome (ok v) = returned v refl
outcome (err e) = raised e refl

unchanged-IsAppended :
    (R : Runtime) (L : Limits) (ts : List Transaction) (s after : Store)
    → s ≡ after
    → IsAppended R L ts s after
unchanged-IsAppended R L ts s after same =
    ([], ap (λ x. x.rows) (sym same) ∙ sym (append-end s.rows), stopped ts)

-- What comes after the recovery of one transaction.
one-IsAppended :
    (R : Runtime) (L : Limits) (t : Transaction) (ts : List Transaction) (s next after : Store)
    → recover_one R L s t ≡ ok next
    → IsAppended R L ts next after
    → IsAppended R L (t ∷ ts) s after
one-IsAppended R L t ts s next after e (more, rows, found) =
    let (j, read, own, place, content) = recover_one-IsPlaced R L s next t e in
    elim place [
      | inl (row, is_row, same, kept) ↦
          (more, rows ∙ ap (λ rs. rs ++ more) kept, held t ts more found)
      | inr (fresh, linked, numbered, grew) ↦ (
        j.row ∷ more,
        rows ∙ ap (λ rs. rs ++ more) grew ∙ append-cons s.rows j.row more,
        placed t ts more j read found,
      )
    ]

each-IsAppended :
    (R : Runtime) (L : Limits) (ts : List Transaction) (s after : Store) (failed : List Diagnostic)
    → recover_each R L s ts ≡ ok (after, failed)
    → IsAppended R L ts s after
unfolding recover_each
each-IsAppended R L [] s after failed h =
    let same : (s, []) ≡ (after, failed) = ok-injective h in
    unchanged-IsAppended R L [] s after (ap (λ p. p.0) same)
each-IsAppended R L (t ∷ ts) s after failed h = elim (outcome (recover_one R L s t)) [
  | returned next e ↦
      one-IsAppended R L t ts s next after e
        (each-IsAppended R L ts next after failed (rw (e, recover_each) at h))
  | raised why e ↦ elim (Bool-cases (is_caught why)) [
    | inl caught ↦
        let same : (s, diagnostic "RECOVERY_FAILED" t.name (message_of why) ∷ [])
            ≡ (after, failed) =
          ok-injective (rw (e, caught, recover_each) at h) in
        unchanged-IsAppended R L (t ∷ ts) s after (ap (λ p. p.0) same)
    | inr passed ↦ let never = rw (e, passed, recover_each) at h in cc
  ]
]

verified-same :
    (R : Runtime) (L : Limits) (s after : Store) (failed found : List Diagnostic)
    → verified_unless R L s failed ≡ ok (after, found)
    → s ≡ after
unfolding verified_unless
verified-same R L s after (d ∷ ds) found h =
    let same : (s, d ∷ ds) ≡ (after, found) = ok-injective h in ap (λ p. p.0) same
verified-same R L s after [] found h =
    let (ds, e, r) = >>=-eq-ok (verify R L s) _ h in
    let same : (s, ds) ≡ (after, found) = ok-injective r in ap (λ p. p.0) same

-- When `recover` returns, whatever it reports, it has left every row of the ledger as it was and in
-- its place. The rows that it added at the end are those of journals that were verified, each of
-- another pending transaction, in the order of the transactions.
pub recover-IsAppended :
    (R : Runtime) (L : Limits) (s after : Store) (found : List Diagnostic)
    → recover R L s ≡ ok (after, found)
    → IsAppended R L s.transactions s after
unfolding recover
recover-IsAppended R L s after found h =
    let ((next, failed), e, r) = >>=-eq-ok (recover_each R L s s.transactions) _ h in
    let same = verified-same R L next after failed found r in
    subst (λ x. IsAppended R L s.transactions s x) same
      (each-IsAppended R L s.transactions s next failed e)
