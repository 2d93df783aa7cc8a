-- ===== src/Lib.antt =====
-- MNCS-Commons: the record core of a commons where agents publish claims and work.
--
-- Commons keeps JSON documents (records and events) under the digest of their canonical text. A
-- record's lifecycle state is never stored: it is projected from an append-only history of
-- events, one trust domain at a time. Work is a record with a protocol of its own: each revision
-- is a new immutable document that names the digest of the one before it, and the store checks a
-- candidate revision against the revisions that it holds. This library models that core, function
-- by function, and shows how the parts fit.
--
-- - Base (children Base/Tests, Base/Text, Base/Int): numbers, texts and lists; Python's strip, in
--   and the like.
-- - Json (children Json/Laws, Json/Equality, Json/Reflexive): JSON documents as Python values,
--   dict access and update, and Python's == on them.
-- - Result: exceptions as values (WorkProtocolError is `refused`, an exception of Python's own is
--   `uncaught`), and `Runtime`, the functions of Python's library that the code calls.
-- - Lists: a property of every item of a list, and that an item stands in one; laws of append.
-- - Models: Diagnostic of src/mncs_commons/models.py, the report of
--   src/mncs_commons/diagnostics.py.
-- - Canonical (child Canonical/Identity): src/mncs_commons/canonical.py, the canonical text and
--   the digest.
-- - Lifecycle (children Lifecycle/Table, Lifecycle/Reachability, Lifecycle/Append,
--   Lifecycle/Domains, Lifecycle/Views): src/mncs_commons/lifecycle.py. `walk` and `visit` are
--   the loop of `_derive_for_domain` and its body.
-- - Family: the repository names of src/mncs_commons/family_registry.py
--   (canonical_project_identity).
-- - Lane (child Lane/Consistent): src/mncs_commons/lane_policy.py, without scope_decision.
-- - Work: src/mncs_commons/work.py. Work/States has the tables, Work/Readers the bounded readers,
--   Work/Hygiene (child Work/Hygiene/Scope) `_hygiene_scope_invalid`, Work/Validate
--   `validate_work_record`, Work/Lineage `work_semantic_diagnostics`, Work/Revise
--   `revised_work_record`, Work/Submit (child Work/Submit/Readers) `new_work_record`,
--   Work/History `project_work_history`, Work/Listing `list_work`, Work/Next `next_work`. Under
--   Work/Revise, Frame says which fields each step writes, Inversion what a returned revision is
--   made of, and Request, Successor, Legal, Outcome, Single and Closed what follows of it. Under
--   Work/History, Sorting and Links are about the sort and the loop, and Steps and Revised join
--   revisions to projections; Work/Submit/Initial does so for a submission. Work/Listing/Sound
--   and Work/Next/Ready are about what is listed and offered.
-- - Producer (children Producer/Texts, Producer/Artifacts, Producer/Settled):
--   src/mncs_commons/family.py, the references to records of other projects
--   (normalize_producer_reference, producer_references).
-- - Validation: src/mncs_commons/validation.py. The parent has the small checks,
--   Validation/Common `_common_record_checks`, Validation/Details (with Validation/References)
--   the checks by kind, Validation/Documents validate_record and validate_event; Validation/Sound
--   is about both.
-- - Semantic (children Semantic/Graph, Semantic/Paths, Semantic/Endings, Semantic/Cycle,
--   Semantic/Accepted): src/mncs_commons/semantic.py. Semantic/Graph has the edges between
--   records and `_has_cycle`: `search` and `visit` are `_has_cycle` and its inner function.
-- - Store: src/mncs_commons/store.py. The parent has the files, the bounds, the ledger and its
--   tail; Store/Journal (child Committed) a commit as a list of writes, Store/Verify (children
--   Extended, Intact, Placed, Grown) `verify`, Store/Add (children Intact, Full) add_record,
--   add_event and add_snapshot, Store/Recover (children Restored, Appended) recover, Store/Sync
--   (children Numbered, Slices, Cursors, Pages) sync_since; Store/Files is about the files of
--   digests.
-- - Mesh (Mesh/Availability and its child Laws): src/mncs_commons/mesh/availability.py, without
--   annotation_from_evidence_entry.
-- - Samples and Tests (children Tests/Revisions, Tests/Histories, Tests/Mesh, Tests/Semantics,
--   Tests/Records and its child Ledger): small inputs, and the theorems at them.
--
-- How the parts interact: Work/Revise calls Canonical for the digest of the current record,
-- Work/States for the tables and Family through Work/Hygiene; Work/Validate calls Lane and
-- Family; Lifecycle calls Canonical for the digests of events. Store/Add calls Validation, then
-- Semantic on the records of the ledger, or Lifecycle on its events, and commits through
-- Store/Journal what they accept; Store/Verify validates each row again.
--
-- The store. A ledger line, a journal and the tail file are held as the documents that their
-- texts stand for; content files as texts. A write to the disk is one step, and the removal of a
-- transaction's directory too. The bounds of the store are an argument, with the code's values as
-- `limits`. The name that `mkdtemp` gives is an argument.
--
-- Modelling. A document is a `Json`; a dict is a list of fields in insertion order, `set`
-- overwrites in place or appends, as Python's dict does. JSON numbers are integers: the code
-- writes no floats in the parts modelled. A list or dict tested for membership in a set counts as
-- not in it (Python raises TypeError there). `deepcopy` is the identity, since no part modelled
-- changes an argument in place. The clock's text is an argument `now`, and a new identifier an
-- argument `unique`. `str` of a value that is no text, `int` of a text, SHA-256, `lower`, the
-- parts of a URL and of a path, `fromisoformat`, `json.loads` and the length of a text in UTF-8
-- are fields of `Runtime`, and no theorem assumes anything of them. A URL for which urlparse
-- raises is outside the model.
--
-- Loops are structural recursion over lists. Fuel is given twice: to the digits of an integer in
-- JSON, one more than the number, which each round divides by ten; and to the search for a cycle,
-- two more than the number of sources, since each visit under way but the last is of another
-- source.
--
-- Not modelled: files, locks, sockets, processes, command lines and HTTP; of
-- src/mncs_commons/store.py, install_generation, storage_usage and the queries; retention and
-- archive; the rest of the mesh, the query engine, the adapters, and the analysis tools for
-- pressure, obligations and architecture.
pub mod Base
pub mod Json
pub mod Result
pub mod Lists
pub mod Canonical
pub mod Models
pub mod Lifecycle
pub mod Family
pub mod Lane
pub mod Work
pub mod Producer
pub mod Validation
pub mod Semantic
pub mod Store
pub mod Mesh
pub mod Samples
pub mod Tests
