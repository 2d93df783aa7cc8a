-- ===== src/Tests/Records/Ledger.antt =====
-- The store on small inputs.
use mncs_commons.Models.{Diagnostic}
use mncs_commons.Store.Recover.{
  path_checks, recover_each, recover, identity_checks, verify_journal, restore, recover_one,
  Journal,
}
use mncs_commons.Store.Recover.Appended.{IsAppended, recover-IsAppended}
use mncs_commons.Base.{
  skip, false, List, ◌++◌, some, pos, none, keep, ◌∷◌, String, false, [], ◌≡◌, refl, ℕ, ◌<◌, ◌≤◌,
  drop, length,
}
use mncs_commons.Json.{null, text, obj, end, field}
use mncs_commons.Result.{Runtime, ok, Result, err}
use mncs_commons.Store.{
  Limits, Tail, Transaction, Store, limits, stem_of, content_file, row_bytes, bytes_of, rows_from,
  read_rows, tail_from_rows, is_last, is_fresh, rebuild_tail, load_tail, make_row,
}
use mncs_commons.Store.Add.{
  add_snapshot, require_no_pending, reloaded, with_digest, candidate_of, payloads, is_held,
  accept_record, add_record,
}
use mncs_commons.Store.Add.Full.{IsRefused, add_record-IsRefused}
use mncs_commons.Store.Sync.{Page, scan, digest_at, check_cursor, sync_since, is_wanted}
use mncs_commons.Store.Sync.Pages.{sync_since_exact, sync_since_advances, sync_since_bounded}
use mncs_commons.Canonical.{plain_digest, canonical_json}
use mncs_commons.Store.Journal.{put_file, perform, perform_all, journal_of, commit_writes, commit}
use mncs_commons.Store.Journal.Committed.{IsTailOf}
use mncs_commons.Store.Verify.{
  link_checks, entry_checks, payload_checks, verify_rows, referenced, orphans, verify,
}
use mncs_commons.Store.Add.Intact.{add_record-verifies}
use mncs_commons.Tests.Semantics.{semantics}
use mncs_commons.Tests.Records.{program, checking, hashed, own_digest, observation}

storage : Unit {0}
unfolding stem_of content_file row_bytes bytes_of rows_from read_rows tail_from_rows is_last
    is_fresh rebuild_tail load_tail make_row put_file perform perform_all journal_of commit_writes
    commit link_checks entry_checks payload_checks verify_rows referenced orphans verify
    require_no_pending reloaded with_digest candidate_of payloads is_held accept_record add_record
storage = tt

abbrev empty : Store
empty = record { rows = []; records = []; events = []; transactions = []; tail = none }

abbrev store_of : Result (Store × String) → Store
store_of (ok both) = both.0
store_of (err raised) = empty

abbrev with_observation : Store
with_observation = store_of (add_record hashed limits "txn-1" empty observation)

add_record-verifies_example :
    (verify hashed limits with_observation ≡ ok [])
    × IsTailOf hashed with_observation.rows with_observation.tail
unfolding program checking semantics storage
add_record-verifies_example =
    add_record-verifies hashed limits "txn-1" empty with_observation observation observation
      own_digest refl tt refl refl refl refl refl

-- A store with a record and a snapshot.
abbrev with_snapshot : Store
with_snapshot =
    elim (add_snapshot hashed limits with_observation
      (field "schema_version" (text "commons.mncs.dev/store-snapshot/v0alpha1") end)) [
        | ok both ↦ both.0
        | err raised ↦ empty
      ]

abbrev no_page : Page
no_page = record { entries = []; next_cursor = end; has_more = false; truncated = false }

abbrev page_or : Result Page → Page
page_or (ok page) = page
page_or (err raised) = no_page

abbrev first_page : Page
first_page = page_or (sync_since hashed limits "store" with_snapshot none 1 none)

paging : Unit {0}
unfolding scan digest_at check_cursor sync_since add_snapshot plain_digest canonical_json
paging = tt

sync_since_exact_example :
    (n : ℕ) × (m : ℕ) × (check_cursor hashed "store" with_snapshot.rows none ≡ ok (pos n))
    × (check_cursor hashed "store" with_snapshot.rows (some first_page.next_cursor) ≡ ok (pos m))
    × (first_page.entries ++ keep (is_wanted none) (drop m with_snapshot.rows)
        ≡ keep (is_wanted none) (drop n with_snapshot.rows))
unfolding program checking semantics storage paging
sync_since_exact_example =
    sync_since_exact hashed limits "store" with_snapshot none 1 none first_page refl refl

sync_since_advances_example :
    (n : ℕ) × (m : ℕ) × (check_cursor hashed "store" with_snapshot.rows none ≡ ok (pos n))
    × (check_cursor hashed "store" with_snapshot.rows (some first_page.next_cursor) ≡ ok (pos m))
    × (n < m)
unfolding program checking semantics storage paging
sync_since_advances_example =
    sync_since_advances hashed limits "store" with_snapshot none 1 none first_page refl refl refl

sync_since_bounded_example : (length first_page.entries ≤ 1) × (length first_page.entries ≤ 1000)
unfolding program checking semantics storage paging
sync_since_bounded_example =
    sync_since_bounded hashed limits "store" with_snapshot none 1 none first_page refl refl

-- A store that may hold one row, and holds a snapshot.
abbrev one_row : Limits
one_row = record limits { ledger_rows = 1 }

abbrev full : Store
full =
    elim (add_snapshot hashed one_row empty
      (field "schema_version" (text "commons.mncs.dev/store-snapshot/v0alpha1") end)) [
        | ok both ↦ both.0
        | err raised ↦ empty
      ]

add_record-IsRefused_example :
    (after : Store) × (digest : String) × (add_record hashed one_row "txn-1" full observation
      ≡ ok (after, digest))
    × IsRefused (read_rows hashed one_row after)
unfolding program checking semantics storage paging
add_record-IsRefused_example =
    add_record-IsRefused hashed one_row "txn-1" full observation observation refl refl refl refl

-- A commit of the observation that was cut off once its journal was written.
abbrev reading : Runtime
reading = record hashed {
  loads = λ s. some (obj observation);
  path = λ s. (false, "records" ∷ skip 8 s ∷ []);
}

abbrev empty_tail : Tail
empty_tail = record { sequence = pos 0; entry_digest = null; ledger_bytes = 0 }

abbrev cut_off : Transaction
cut_off = record {
  name = "txn-1";
  journal = some (
      journal_of reading empty "record" observation
        (make_row reading "record" observation empty_tail) empty_tail);
  content = none;
}

abbrev interrupted : Store
interrupted = record empty { transactions = cut_off ∷ [] }

abbrev recovered : Store
recovered = elim (recover_one reading limits interrupted cut_off) [ ok s ↦ s | err raised ↦ empty ]

recovery : Unit {0}
unfolding path_checks identity_checks verify_journal restore recover_one
recovery = tt

recovery_all : Unit {0}
unfolding recover_each recover
recovery_all = tt

abbrev restored : Store × List Diagnostic
restored = elim (recover reading limits interrupted) [ ok found ↦ found | err raised ↦ (empty, []) ]

recover-IsAppended_example : IsAppended reading limits (cut_off ∷ []) interrupted restored.0
unfolding program checking semantics storage paging recovery recovery_all
recover-IsAppended_example =
    recover-IsAppended reading limits interrupted restored.0 restored.1 refl

one_recovered : length restored.0.rows ≡ 1
unfolding program checking semantics storage paging recovery recovery_all
one_recovered = refl
