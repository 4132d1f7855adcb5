-- ===== src/Manifest.antt =====
-- core/schemas/manifest.py and core/identity.py: the lines, blocks and pages that both format
-- parsers produce, and the reference that names a line across pages. `ocr_confidence` and
-- `Coords.polygon`, which none of the modelled code reads, are left out.
use corrigenda.Base.{
  ℕ, String, Bool, true, false, Option, none, some, List, Text, ℤ, str_eq, ◌&&◌, if◌then◌else◌,
}

pub data LineStatus : Type 0 where
  pending corrected fallback failed : LineStatus

pub data HyphenRole : Type 0 where
  no_role part1 part2 both : HyphenRole

pub record LineRef : Type 0 where
  pub page_id : String
  pub line_id : String

pub record Coords : Type 0 where
  pub hpos : ℤ
  pub vpos : ℤ
  pub width : ℤ
  pub height : ℤ

pub record LineManifest : Type 0 where
  pub line_id : String
  pub page_id : String
  pub block_id : String
  pub line_order_global : ℕ
  pub line_order_in_block : ℕ
  pub coords : Coords
  pub ocr_text : Text
  pub word_count : Option ℕ
  pub prev_line_id : Option String
  pub next_line_id : Option String
  pub corrected_text : Option Text
  pub status : LineStatus
  pub hyphen_role : HyphenRole
  pub hyphen_pair_line_id : Option String
  pub hyphen_pair_page_id : Option String
  pub hyphen_subs_content : Option Text
  pub hyphen_source_explicit : Bool
  pub hyphen_forward_pair_id : Option String
  pub hyphen_forward_pair_page_id : Option String
  pub hyphen_forward_subs_content : Option Text
  pub hyphen_forward_explicit : Bool

pub record BlockManifest : Type 0 where
  pub block_id : String
  pub page_id : String
  pub block_order : ℕ
  pub coords : Coords
  pub line_ids : List String

pub record PageManifest : Type 0 where
  pub page_id : String
  pub source_file : String
  pub page_index : ℕ
  pub page_width : ℕ
  pub page_height : ℕ
  pub blocks : List BlockManifest
  pub lines : List LineManifest

-- core/identity.py
unfoldable pub line_ref : LineManifest → LineRef
line_ref lm = record { page_id = lm.page_id; line_id = lm.line_id }

abbrev pub ref_eq : LineRef → LineRef → Bool
ref_eq a b = str_eq a.page_id b.page_id && str_eq a.line_id b.line_id

-- `x or None` for an optional text identifier: the empty string counts as absent.
unfoldable pub truthy : Option String → Option String
truthy none = none
truthy (some s) = if str_eq s "" then none else some s

-- `x or y`
unfoldable pub or_else : Option String → String → String
or_else none y = y
or_else (some s) y = if str_eq s "" then y else s

-- `role in (PART1, BOTH)`: the line ends on a word that the next line continues.
unfoldable pub wants_forward : HyphenRole → Bool
wants_forward HyphenRole.part1 = true
wants_forward HyphenRole.both = true
wants_forward HyphenRole.part2 = false
wants_forward HyphenRole.no_role = false

-- `role in (PART2, BOTH)`
unfoldable pub wants_backward : HyphenRole → Bool
wants_backward HyphenRole.part2 = true
wants_backward HyphenRole.both = true
wants_backward HyphenRole.part1 = false
wants_backward HyphenRole.no_role = false
