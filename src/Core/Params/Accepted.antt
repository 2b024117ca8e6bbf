-- ===== src/Core/Params/Accepted.antt =====
-- crates/rllm-core/src/request.rs, `validate`: which parameters are accepted.
use r_llm.Shared.{
  ℕ, ◌≤◌, ◌<◌, ap, true, false, not, ◌&&◌, ◌||◌, Option, none, some, [], ◌≡◌, refl, ◌⊎◌, ◌↔◌, arith,
  ◌==◌, ltb, is_empty, is_some,
}
use r_llm.Core.Params.{
  SpeculativeDecodingConfig, StructuredOutputParams, SamplingParams, FloatTests, is_some_and,
  check_structured, validate,
}
use r_llm.Core.Params.Structured.{
  StructuredFits, then-none, none-then, fail_if-none, none-fail_if, not_some, empty-list,
  validate_structured-fits, fits-validate_structured,
}

-- No speculative decoding is configured, or it is not enabled.
abbrev SpeculativeOff : Option SpeculativeDecodingConfig → Type 0
SpeculativeOff none = Unit
SpeculativeOff (some c) = c.enabled ≡ false

speculative-off :
    (o : Option SpeculativeDecodingConfig)
    → is_some_and o (λ c. c.enabled) ≡ false
    → SpeculativeOff o
unfolding is_some_and
speculative-off none e = tt
speculative-off (some c) e = e

off-speculative :
    (o : Option SpeculativeDecodingConfig)
    → SpeculativeOff o
    → is_some_and o (λ c. c.enabled) ≡ false
unfolding is_some_and
off-speculative none e = refl
off-speculative (some c) e = e

module _ {F J : Type 0} (floats : FloatTests F) (json_length : J → ℕ) where
  -- What structured outputs ask of the other parameters.
  abbrev OutputsFit : SamplingParams F J → Option (StructuredOutputParams J) → Type 0
  OutputsFit p none = Unit
  OutputsFit p (some o) =
      StructuredFits floats json_length o
      × SpeculativeOff p.speculative_decoding
      × (p.n ≡ 1)
      × (p.allowed_token_ids ≡ none)
      × (p.min_tokens ≡ 0)
      × (p.ignore_eos ≡ false)
      × (p.stop ≡ [])
      × (p.stop_token_ids ≡ [])

  abbrev pub IsAccepted : SamplingParams F J → Type 0
  IsAccepted p =
      (0 < p.n)
      × (floats.below_zero p.temperature ≡ false)
      × (floats.up_to_two p.presence_penalty ≡ true)
      × (floats.up_to_two p.frequency_penalty ≡ true)
      × (floats.not_positive p.repetition_penalty ≡ false)
      × (floats.up_to_one p.top_p ≡ true)
      × ((floats.is_zero p.temperature ≡ false) ⊎ (p.n ≤ 1))
      × OutputsFit p p.structured_outputs

  check_structured-fits :
      (p : SamplingParams F J) (outputs : Option (StructuredOutputParams J))
      → check_structured floats json_length p outputs ≡ none
      → OutputsFit p outputs
  unfolding check_structured
  check_structured-fits p none e = tt
  check_structured-fits p (some o) e =
      let (e, stops) = then-none _ _ e in
      let (e, one) = then-none _ _ e in
      let (fits, spec) = then-none _ _ e in
      let one : not (p.n == 1) ≡ false = fail_if-none _ _ one in
      let stops : is_some p.allowed_token_ids
            || ltb 0 p.min_tokens
            || p.ignore_eos
            || not (is_empty p.stop)
            || not (is_empty p.stop_token_ids)
          ≡ false =
        fail_if-none _ _ stops in
      (
        validate_structured-fits floats json_length o fits,
        speculative-off p.speculative_decoding (fail_if-none _ _ spec),
        ground (arith, one),
        not_some p.allowed_token_ids (ground (arith, stops)),
        ground (arith, stops),
        ground (arith, stops),
        empty-list p.stop (ground (arith, stops)),
        empty-list p.stop_token_ids (ground (arith, stops)),
      )

  fits-check_structured :
      (p : SamplingParams F J) (outputs : Option (StructuredOutputParams J))
      → OutputsFit p outputs
      → check_structured floats json_length p outputs ≡ none
  unfolding check_structured
  fits-check_structured p none h = refl
  fits-check_structured p (some o) (fits, spec, one, allowed, least, eos, stop, ids) =
      let one : not (p.n == 1) ≡ false = ground (arith, one) in
      let stops : is_some p.allowed_token_ids
            || ltb 0 p.min_tokens
            || p.ignore_eos
            || not (is_empty p.stop)
            || not (is_empty p.stop_token_ids)
          ≡ false =
        ground (
          arith,
          ap is_some allowed,
          least,
          eos,
          ap (λ l. is_empty l) stop,
          ap (λ l. is_empty l) ids,
        ) in
      none-then _ _
        (none-then _ _
          (none-then _ _ (fits-validate_structured floats json_length o fits)
            (none-fail_if _ _ (off-speculative p.speculative_decoding spec)))
          (none-fail_if _ _ one))
        (none-fail_if _ _ stops)

  -- `validate` accepts exactly these parameters: at least one sample, and one at most for a
  -- temperature of zero; each number in its range; and if there are structured outputs, exactly
  -- one of the six constraints is given, a JSON object not as `false`, a text or a list of
  -- choices not empty nor with an empty choice and of at most 1048576 bytes in all, a schema of
  -- at most as many; besides one sample, no speculative decoding that is enabled, no allowed
  -- token ids, no least number of tokens, no ignored end of sequence and no stop strings or stop
  -- tokens.
  pub validate-accepts :
      (p : SamplingParams F J) → (validate floats json_length p ≡ none) ↔ IsAccepted p
  unfolding validate
  validate-accepts p = (
    (λ e.
        let (e, structured) = then-none _ _ e in
        let (e, greedy) = then-none _ _ e in
        let (e, top_p) = then-none _ _ e in
        let (e, repetition) = then-none _ _ e in
        let (e, frequency) = then-none _ _ e in
        let (e, presence) = then-none _ _ e in
        let (n, temperature) = then-none _ _ e in
        let n : (p.n == 0) ≡ false = fail_if-none _ _ n in
        let presence : not (floats.up_to_two p.presence_penalty) ≡ false =
          fail_if-none _ _ presence in
        let frequency : not (floats.up_to_two p.frequency_penalty) ≡ false =
          fail_if-none _ _ frequency in
        let top_p : not (floats.up_to_one p.top_p) ≡ false = fail_if-none _ _ top_p in
        let greedy : floats.is_zero p.temperature && ltb 1 p.n ≡ false = fail_if-none _ _ greedy in
        (
          ground (arith, n),
          fail_if-none _ _ temperature,
          ground (arith, presence),
          ground (arith, frequency),
          fail_if-none _ _ repetition,
          ground (arith, top_p),
          ground (arith, greedy),
          check_structured-fits p p.structured_outputs structured,
        )),
    λ (n, temperature, presence, frequency, repetition, top_p, greedy, structured).
        let n : (p.n == 0) ≡ false = ground (arith, n) in
        let presence : not (floats.up_to_two p.presence_penalty) ≡ false =
          ground (arith, presence) in
        let frequency : not (floats.up_to_two p.frequency_penalty) ≡ false =
          ground (arith, frequency) in
        let top_p : not (floats.up_to_one p.top_p) ≡ false = ground (arith, top_p) in
        let greedy : floats.is_zero p.temperature && ltb 1 p.n ≡ false = ground (arith, greedy) in
        none-then _ _
          (none-then _ _
            (none-then _ _
              (none-then _ _
                (none-then _ _
                  (none-then _ _ (none-then _ _ (none-fail_if _ _ n) (none-fail_if _ _ temperature))
                    (none-fail_if _ _ presence))
                  (none-fail_if _ _ frequency))
                (none-fail_if _ _ repetition))
              (none-fail_if _ _ top_p))
            (none-fail_if _ _ greedy))
          (fits-check_structured p p.structured_outputs structured),
  )
