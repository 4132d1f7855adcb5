-- ===== src/Policies.antt =====
-- core/schemas/policies.py: the thresholds of the guards, the planner's budgets and the retry
-- policy, as the records that the engine is given.
use corrigenda.Base.{ℕ, List, Option, none, some, get_elem?, length, min, max, ◌-◌, pos}
use corrigenda.Floats.{Floats}

pub record ChunkPlannerConfig : Type 0 where
  pub max_input_chars_per_request : ℕ
  pub max_lines_per_request : ℕ
  pub line_window_size : ℕ
  pub line_window_overlap : ℕ

abbrev pub default_planner_config : ChunkPlannerConfig
default_planner_config = record {
  max_input_chars_per_request = 12000;
  max_lines_per_request = 80;
  line_window_size = 12;
  line_window_overlap = 1;
}

pub record GuardConfig (fl : Floats) : Type 0 where
  pub min_source_similarity : fl.Float
  pub neighbour_margin : fl.Float
  pub duplicate_threshold : fl.Float
  pub duplicate_source_min_diff : fl.Float
  pub absorption_length_ratio : fl.Float
  pub absorption_concat_similarity : fl.Float
  pub part1_max_word_growth : ℕ
  pub part1_last_word_char_growth : ℕ
  pub part1_char_growth_ratio : fl.Float
  pub part1_char_growth_slack : ℕ
  pub part2_collapse_ratio : fl.Float
  pub part2_expansion_floor : ℕ
  pub part2_expansion_ratio : fl.Float
  pub boundary_prefix_len : ℕ
  pub boundary_len_ratio_min : fl.Float
  pub boundary_len_ratio_max : fl.Float
  pub pair_drift_part1_word_growth : ℕ
  pub pair_drift_part2_min_words : ℕ
  pub pair_drift_part2_collapse_ratio : fl.Float
  pub edit_span_max_growth_ratio : fl.Float
  pub edit_line_max_changed_chars : ℕ

pub record RetryPolicy (fl : Floats) : Type 0 where
  pub max_attempts : ℕ
  pub temperatures : List fl.Float
  pub transient_backoff_base : fl.Float
  pub output_backoff_base : fl.Float
  pub per_chunk_budget : ℕ

module _ (fl : Floats) where
  unfoldable pub or_zero : Option fl.Float → fl.Float
  or_zero none = fl.of_ℤ (pos 0)
  or_zero (some t) = t

  -- `temperature_for`: 0.0 for an empty ramp, else the attempt's place in it, clamped to its end.
  unfoldable pub temperature_for : RetryPolicy fl → ℕ → fl.Float
  unfolding or_zero
  temperature_for policy attempt =
      or_zero
        (get_elem? policy.temperatures (min (max attempt 1 - 1) (length policy.temperatures - 1)))
