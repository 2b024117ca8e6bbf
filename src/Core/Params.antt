-- ===== src/Core/Params.antt =====
-- crates/rllm-core/src/request.rs: `SamplingParams`, `StructuredOutputParams` and their `validate`.
-- Floating-point numbers and JSON values are parameters, with the tests that the code makes on
-- them; a string is the list of its bytes. `none` is `Ok(())`.
pub mod Structured
pub mod Accepted
use r_llm.Shared.{
  ℕ, zero, suc, ◌+◌, Bool, true, false, not, ◌&&◌, ◌||◌, Option, none, some, List, [], ◌∷◌, ◌==◌,
  ltb, if◌then◌else◌, length, is_empty, is_some,
}
use r_llm.Scheduler.Policy.{ℤ}

abbrev pub Text : Type 0
Text = List ℕ

pub data ParamsError : Type 0 where
  n_zero negative_temperature presence_penalty_range frequency_penalty_range : ParamsError
  repetition_penalty_range top_p_range greedy_n : ParamsError
  not_exactly_one json_object_false xml_empty xml_limit regex_empty regex_limit : ParamsError
  grammar_empty grammar_limit empty_choice constraint_limit : ParamsError
  with_speculative structured_n structured_with_stop : ParamsError

pub data OutputKind : Type 0 where
  text token_ids : OutputKind

pub record SpeculativeDecodingConfig : Type 0 where
  pub enabled : Bool
  pub proposer : Text
  pub num_speculative_tokens : ℕ
  pub min_ngram : ℕ
  pub max_ngram : ℕ

pub record StructuredOutputParams (J : Type 0) : Type 0 where
  pub json_schema : Option J
  pub json_object : Option Bool
  pub xml : Option Text
  pub regex : Option Text
  pub grammar : Option Text
  pub choice : Option (List Text)

pub record SamplingParams (F J : Type 0) : Type 0 where
  pub n : ℕ
  pub best_of : Option ℕ
  pub presence_penalty : F
  pub frequency_penalty : F
  pub repetition_penalty : F
  pub temperature : F
  pub top_p : F
  pub top_k : ℤ
  pub min_p : F
  pub seed : Option ℕ
  pub stop : List Text
  pub stop_token_ids : List ℕ
  pub ignore_eos : Bool
  pub max_tokens : Option ℕ
  pub min_tokens : ℕ
  pub logprobs : Option ℕ
  pub prompt_logprobs : Option ℕ
  pub detokenize : Bool
  pub skip_special_tokens : Bool
  pub spaces_between_special_tokens : Bool
  pub include_stop_str_in_output : Bool
  pub output_kind : OutputKind
  pub logit_bias : List (ℕ × F)
  pub allowed_token_ids : Option (List ℕ)
  pub bad_words : List Text
  pub structured_outputs : Option (StructuredOutputParams J)
  pub skip_reading_prefix_cache : Bool
  pub speculative_decoding : Option SpeculativeDecodingConfig

-- The tests on `f32` that the validation makes.
pub record FloatTests (F : Type 0) : Type 0 where
  -- `x < 0.0`
  pub below_zero : F → Bool
  -- `x <= 0.0`
  pub not_positive : F → Bool
  -- `x == 0.0`
  pub is_zero : F → Bool
  -- `(0.0..=1.0).contains(&x)`
  pub up_to_one : F → Bool
  -- `(0.0..=2.0).contains(&x)`
  pub up_to_two : F → Bool

-- The first error of two checks in a row.
infixl 5 ◌then◌
unfoldable pub ◌then◌ : Option ParamsError → Option ParamsError → Option ParamsError
none then next = next
some e then next = some e

-- An early return.
unfoldable pub fail_if : Bool → ParamsError → Option ParamsError
fail_if true e = some e
fail_if false e = none

unfoldable pub limit : ℕ
limit = 1048576

unfoldable pub is_some_and {ℓ} : {A : Type ℓ} → Option A → (A → Bool) → Bool
is_some_and none test = false
is_some_and (some a) test = test a

unfoldable pub count_true : List Bool → ℕ
count_true [] = 0
count_true (true ∷ bs) = suc (count_true bs)
count_true (false ∷ bs) = count_true bs

unfoldable pub any_empty : List Text → Bool
any_empty [] = false
any_empty (t ∷ ts) = is_empty t || any_empty ts

unfoldable pub total_length : List Text → ℕ
total_length [] = 0
total_length (t ∷ ts) = length t + total_length ts

unfoldable pub check_text : Option Text → ParamsError → ParamsError → Option ParamsError
unfolding ◌then◌ fail_if is_some_and limit
check_text value empty over =
    fail_if (is_some_and value (λ t. is_empty t)) empty
    then fail_if (is_some_and value (λ t. ltb limit (length t))) over

module _ {F J : Type 0} (floats : FloatTests F) (json_length : J → ℕ) where
  unfoldable pub active : StructuredOutputParams J → ℕ
  unfolding count_true
  active p = count_true (
      is_some p.json_schema
      ∷ is_some p.json_object
      ∷ is_some p.xml
      ∷ is_some p.regex
      ∷ is_some p.grammar
      ∷ is_some p.choice
      ∷ [])

  unfoldable pub validate_structured : StructuredOutputParams J → Option ParamsError
  unfolding ◌then◌ fail_if active is_some_and check_text any_empty total_length limit
  validate_structured p =
      fail_if (not (active p == 1)) not_exactly_one
      then fail_if (is_some_and p.json_object (λ b. not b)) json_object_false
      then check_text p.xml xml_empty xml_limit
      then check_text p.regex regex_empty regex_limit
      then check_text p.grammar grammar_empty grammar_limit
      then fail_if (is_some_and p.choice (λ c. is_empty c || any_empty c)) empty_choice
      then fail_if
          (is_some_and p.json_schema (λ j. ltb limit (json_length j))
            || is_some_and p.choice (λ c. ltb limit (total_length c)))
          constraint_limit

  -- The structured outputs, and what they cannot be combined with.
  unfoldable pub check_structured :
      SamplingParams F J → Option (StructuredOutputParams J) → Option ParamsError
  unfolding ◌then◌ fail_if is_some_and validate_structured
  check_structured p none = none
  check_structured p (some outputs) =
      validate_structured outputs
      then fail_if (is_some_and p.speculative_decoding (λ c. c.enabled)) with_speculative
      then fail_if (not (p.n == 1)) structured_n
      then fail_if
          (is_some p.allowed_token_ids
            || ltb 0 p.min_tokens
            || p.ignore_eos
            || not (is_empty p.stop)
            || not (is_empty p.stop_token_ids))
          structured_with_stop

  unfoldable pub validate : SamplingParams F J → Option ParamsError
  unfolding ◌then◌ fail_if check_structured
  validate p =
      fail_if (p.n == 0) n_zero
      then fail_if (floats.below_zero p.temperature) negative_temperature
      then fail_if (not (floats.up_to_two p.presence_penalty)) presence_penalty_range
      then fail_if (not (floats.up_to_two p.frequency_penalty)) frequency_penalty_range
      then fail_if (floats.not_positive p.repetition_penalty) repetition_penalty_range
      then fail_if (not (floats.up_to_one p.top_p)) top_p_range
      then fail_if (floats.is_zero p.temperature && ltb 1 p.n) greedy_n
      then check_structured p p.structured_outputs
