-- ===== src/Lib.antt =====
-- Verification of saknussemm, a library that corrects the text of OCR output (ALTO and PAGE XML)
-- line by line through a producer, in most cases a language model, without moving text between
-- lines. Parsers give pages of lines; words broken over a line end are paired; a planner cuts a
-- page into chunks; each chunk is sent to the producer, with retries; the answer is validated and
-- turned into edits; the edits are applied under guards; and hyphen pairs are reconciled, so that
-- the two halves of a word are corrected together or not at all.
--
-- Files and code (paths from the repository's root):
--   Base and its modules   shared helpers: Boolean tests, lists, integers, Python's `str` as the
--                          list of its code points with the methods that the code calls
--   Floats                 `float` and `unicodedata`, as parameters
--   Policies               src/saknussemm/core/schemas/policies.py: ChunkPlannerConfig,
--                          GuardConfig, RetryPolicy.temperature_for
--   Manifest               src/saknussemm/core/schemas/manifest.py and core/identity.py: lines,
--                          blocks, pages, references, roles and states of a line
--   Identity               src/saknussemm/core/identity.py, and the identity checks of
--                          core/preflight.py
--   Marks, Pairing         src/saknussemm/core/pairing.py: break marks, the references between the
--                          two lines of a broken word, link_hyphen_pairs
--   CrossPage              src/saknussemm/core/pairing.py: link_cross_page_hyphens,
--                          disambiguate_page_ids, unpaired_break_refs
--   Units, Units/Groups    src/saknussemm/core/units.py: split_forward_link, derive_hyphen_groups
--   Planner                src/saknussemm/core/planner.py: _plan_line (Planner/Line), _try_window
--                          and _assign_window_targets (Planner/Window), _try_block
--                          (Planner/Block), _try_page and plan_page (Planner/Page)
--   Batching               src/saknussemm/core/batching.py: _split_for_image_cap
--   Retry                  src/saknussemm/core/retry.py and core/attempt.py: _classify_retry,
--                          ChunkBudget, _attempt_chunk
--   Validator              src/saknussemm/core/validator.py: validate_llm_response
--   Editing                src/saknussemm/core/editing.py: operations (Ops), anchors (Anchor), the
--                          guards on what an edit changes (Drift), the operations on one line
--                          (Line), a script (Script)
--   Decide                 src/saknussemm/core/decide.py and core/traces.py: accept, fall_back
--   Hyphenation            src/saknussemm/core/hyphenation.py: reconcile_hyphen_pair
--   Reconcile              src/saknussemm/core/reconcile.py: _reconcile_one_pair
--   Alignment              src/saknussemm/core/alignment.py: align_tokens with its banded table and
--                          its walk back, char_similarity
--   PageAlignment          src/saknussemm/core/page_alignment.py: align_page_lines
--   Guards                 src/saknussemm/core/guards.py: check_line, check_adjacent_duplicates,
--                          check_boundary_migration
--   LineAcceptance         src/saknussemm/core/acceptance.py: _apply_line_acceptance, with
--                          _lookup_ref of core/reconcile.py
--   Acceptance             src/saknussemm/core/acceptance.py: the order of the document's passes and
--                          the reversal of whole hyphen units
--   Decisions              src/saknussemm/core/decisions.py: derive_decision_set
--   Finalize               src/saknussemm/core/finalize.py and the passes of core/acceptance.py:
--                          adjacency, break characters, strict loss policy, _finalize_document
--   TokenRealign           the loss policy's threshold in core/acceptance.py: the token_realign gate
--                          and _sidecar_entries
--   ChunkReconcile         src/saknussemm/core/reconcile.py: _claim_joins, _walk_units_reconciling
--   PageUnits              src/saknussemm/core/reconcile.py and core/units.py: the units that a page
--                          shows, units_containing, sub-pages
--   Enrich                 src/saknussemm/core/hyphenation.py: enrich_chunk_lines; core/traces.py:
--                          _finalize_chunk_traces
--   Examples               the theorems at concrete inputs, and tests
-- The other modules below these hold the theorems, and are named for what they prove.
--
-- How the model corresponds to the code. The source mutates lines, traces and lists of refusals;
-- the model returns them. A dictionary is a function where it is only read, else an association
-- list in the order of insertion. An exception is a value: `none` where a function raises one kind
-- only, an `Exc` where the classes matter. Positions and counts are native naturals; an anchor's
-- offsets and a budget's rest are integers. `str.isspace`, `split`, `strip`, `rstrip`, `find` and
-- slices are written out on code points. The float arithmetic of the guards, case folding, the
-- letters, the SHA-256 of a text and the geometry that decides whether two lines may pair are
-- parameters, of which nothing is assumed. The producer is a function of the attempt's number and
-- temperature. The costs of an alignment are floats only because a similarity is a fraction: the
-- model counts them as whole numbers of a unit (`Scale`, which says how many units are 1 and how
-- many are the tolerance 1e-9), so that a similarity is a number of units; rounding is left out.
-- difflib's ratio without junk is written out from the documented search for the longest match. A
-- document's lines are its pages' lines; the index of lines by identity that the passes are given
-- is a search in the pages.
--
-- Loops. Most are structural recursion. On fuel are: the search for the places of a text
-- (`starts_loop`, the text's length and one, since each turn goes on in the text), the walk along
-- a hyphen chain and the loops over a page's lines (`walk`, `plan_chunks`, `core_end`, `stretch`,
-- `window_bounds`, the page's length, since each turn goes forward in the page), the attempts of a
-- chunk (the policy's number of attempts, which is the code's own bound), the walk back through an
-- alignment's table (`walk_back`, the number of tokens on both sides, since each turn takes one
-- away), the matching blocks of two texts (`matching_size`, the first text's length and one), the
-- digits of a number and the root of a union-find tree (`find_root`, `find_block`, one step for
-- each key).
--
-- Not modelled: the XML adapters (src/saknussemm/formats), which read and write trees of a
-- third-party library; the producers and integrations, which call models over the network; the
-- asynchronous pipeline, events, reports and provenance; and, of the core, routing and the checks
-- of files and images in preflight. `finalize_document` runs the loss policy without a threshold
-- for alignments, whose gate is modelled beside it.
mod Base
pub mod Floats
pub mod Policies
pub mod Manifest
pub mod Identity
pub mod Marks
pub mod Pairing
pub mod CrossPage
pub mod Units
pub mod Retry
pub mod Decide
pub mod Hyphenation
pub mod Reconcile
pub mod Editing
pub mod Validator
pub mod Planner
pub mod Alignment
pub mod PageAlignment
pub mod Guards
pub mod Acceptance
pub mod LineAcceptance
pub mod Decisions
pub mod ChunkReconcile
pub mod Enrich
pub mod PageUnits
pub mod Finalize
pub mod TokenRealign
pub mod Batching
pub mod Examples
