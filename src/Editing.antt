-- ===== src/Editing.antt =====
-- core/editing.py: the span edit protocol. `Ops` has its types, `Anchor` where an operation lands,
-- `Drift` the guards on what it changes, `Line` the operations of one line and `Script` a whole
-- script; the other modules prove what these promise.
pub mod Ops
pub mod Anchor
pub mod Positions
pub mod Occurrences
pub mod Drift
pub mod Window
pub mod Line
pub mod Splice
pub mod Cover
pub mod Standing
pub mod Verdicts
pub mod Counts
pub mod Accounts
pub mod Script
