-- ===== src/Examples/Samples.antt =====
-- What the examples share: floats as fractions of naturals, an identity for case folding, the
-- default policies of core/schemas/policies.py, and lines.
use Prim.Native.Nat.{◌/◌}
use corrigenda.Base.{
  ℕ, ◌+◌, ◌*◌, false, ◌&&◌, ◌||◌, none, some, [], ◌∷◌, String, Text, pos, pos_part, ltb, leb,
}
use corrigenda.Floats.{Floats, Unicode}
use corrigenda.Policies.{GuardConfig, RetryPolicy}
use corrigenda.Manifest.{Coords, HyphenRole, LineStatus, LineManifest}

abbrev pub fractions : Floats
fractions = record {
  Float = ℕ × ℕ;
  of_ℤ = λ n. (pos_part n, 1);
  add = λ (a, b) (c, d). (a * d + c * b, b * d);
  mul = λ (a, b) (c, d). (a * c, b * d);
  ratio = λ a b. (a, b);
  lt = λ (a, b) (c, d). ltb (a * d) (c * b);
  le = λ (a, b) (c, d). leb (a * d) (c * b);
  trunc = λ (a, b). a / b;
}

abbrev pub plain : Unicode
plain = record {
  ncfold = λ t. t;
  is_alpha = λ c. (leb 65 c && leb c 90) || (leb 97 c && leb c 122);
}

abbrev pub default_guard : GuardConfig fractions
default_guard = record {
  min_source_similarity = (35, 100);
  neighbour_margin = (15, 100);
  duplicate_threshold = (85, 100);
  duplicate_source_min_diff = (70, 100);
  absorption_length_ratio = (12, 10);
  absorption_concat_similarity = (8, 10);
  part1_max_word_growth = 1;
  part1_last_word_char_growth = 3;
  part1_char_growth_ratio = (14, 10);
  part1_char_growth_slack = 8;
  part2_collapse_ratio = (4, 10);
  part2_expansion_floor = 3;
  part2_expansion_ratio = (4, 10);
  boundary_prefix_len = 2;
  boundary_len_ratio_min = (5, 10);
  boundary_len_ratio_max = (2, 1);
  pair_drift_part1_word_growth = 2;
  pair_drift_part2_min_words = 2;
  pair_drift_part2_collapse_ratio = (4, 10);
  edit_span_max_growth_ratio = (4, 1);
  edit_line_max_changed_chars = 200;
}

abbrev pub default_retry : RetryPolicy fractions
default_retry = record {
  max_attempts = 3;
  temperatures = (0, 1) ∷ (3, 10) ∷ (5, 10) ∷ [];
  transient_backoff_base = (2, 1);
  output_backoff_base = (1, 1);
  per_chunk_budget = 6;
}

abbrev nowhere : Coords
nowhere = record { hpos = pos 0; vpos = pos 0; width = pos 0; height = pos 0 }

-- A line as the parsers leave it, on the page "p".
abbrev pub fresh : String → Text → LineManifest
fresh i text = record {
  line_id = i;
  page_id = "p";
  block_id = "b";
  line_order_global = 0;
  line_order_in_block = 0;
  coords = nowhere;
  ocr_text = text;
  word_count = none;
  prev_line_id = none;
  next_line_id = none;
  corrected_text = none;
  status = LineStatus.pending;
  hyphen_role = HyphenRole.no_role;
  hyphen_pair_line_id = none;
  hyphen_pair_page_id = none;
  hyphen_subs_content = none;
  hyphen_source_explicit = false;
  hyphen_forward_pair_id = none;
  hyphen_forward_pair_page_id = none;
  hyphen_forward_subs_content = none;
  hyphen_forward_explicit = false;
}

-- The first and the second line of a broken word, and one in the middle of two.
abbrev pub opening : String → String → Text → LineManifest
opening i next text = record (fresh i text) {
  hyphen_role = HyphenRole.part1;
  hyphen_pair_line_id = some next;
}

abbrev pub closing : String → String → Text → LineManifest
closing i before text = record (fresh i text) {
  hyphen_role = HyphenRole.part2;
  hyphen_pair_line_id = some before;
}

abbrev pub middle : String → String → String → Text → LineManifest
middle i before next text = record (fresh i text) {
  hyphen_role = HyphenRole.both;
  hyphen_pair_line_id = some before;
  hyphen_forward_pair_id = some next;
}
