-- ===== src/Core/Params/Structured.antt =====
-- crates/rllm-core/src/request.rs, `validate_structured` and the checks that it is made of.
use r_llm.Shared.{
  ℕ, ◌+◌, ◌≤◌, Bool, true, false, not, ◌||◌, Option, none, some, List, [], ◌∷◌, ◌≡◌, refl, ◌≢◌, ◌⊎◌,
  inl, inr, arith, ◌==◌, ltb, length, is_empty, is_some, All,
}
use r_llm.Core.Params.{
  Text, ParamsError, StructuredOutputParams, FloatTests, ◌then◌, fail_if, limit, is_some_and,
  any_empty, total_length, count_true, check_text, active, validate_structured,
}

abbrev max_bytes : ℕ
max_bytes = 1048576

-- The bytes of some texts.
abbrev bytes_in : List Text → ℕ
bytes_in [] = 0
bytes_in (t ∷ ts) = length t + bytes_in ts

-- 1 for an option that is given.
abbrev pub given {ℓ} : {A : Type ℓ} → Option A → ℕ
given none = 0
given (some a) = 1

-- A text that is given has bytes, and at most 1 MiB of them.
abbrev TextFits : Option Text → Type 0
TextFits none = Unit
TextFits (some t) = (t ≢ []) × (length t ≤ max_bytes)

abbrev ChoiceFits : Option (List Text) → Type 0
ChoiceFits none = Unit
ChoiceFits (some c) = (c ≢ []) × All (λ t. t ≢ []) c × (bytes_in c ≤ max_bytes)

limit-max_bytes : limit ≡ max_bytes
unfolding limit
limit-max_bytes = refl

total_length-bytes_in : (ts : List Text) → total_length ts ≡ bytes_in ts
unfolding total_length
total_length-bytes_in [] = refl
total_length-bytes_in (t ∷ ts) = omega (arith, total_length-bytes_in ts)

count_true-given {ℓ} :
    {A : Type ℓ} (o : Option A) (bs : List Bool)
    → count_true (is_some o ∷ bs) ≡ given o + count_true bs
unfolding count_true
count_true-given none bs = omega arith
count_true-given (some a) bs = omega arith

pub not_some {ℓ} : {A : Type ℓ} (o : Option A) → is_some o ≡ false → o ≡ none
not_some none e = refl
not_some (some a) e = ground (arith, e)

pub then-none : (a b : Option ParamsError) → a then b ≡ none → (a ≡ none) × (b ≡ none)
unfolding ◌then◌
then-none none b e = (refl, e)
then-none (some x) b e = ground (arith, e)

pub none-then : (a b : Option ParamsError) → a ≡ none → b ≡ none → a then b ≡ none
unfolding ◌then◌
none-then a b e f = ground (arith, e, f)

pub fail_if-none : (b : Bool) (e : ParamsError) → fail_if b e ≡ none → b ≡ false
unfolding fail_if
fail_if-none b e h = ground (arith, h)

pub none-fail_if : (b : Bool) (e : ParamsError) → b ≡ false → fail_if b e ≡ none
unfolding fail_if
none-fail_if b e h = ground (arith, h)

is_empty-cases {ℓ} :
    {A : Type ℓ} (xs : List A)
    → ((is_empty xs ≡ true) × (xs ≡ [])) ⊎ ((is_empty xs ≡ false) × (xs ≢ []))
is_empty-cases [] = inl (refl, refl)
is_empty-cases (x ∷ xs) = inr (refl, λ e. ground (arith, e))

pub empty-list {ℓ} : {A : Type ℓ} (xs : List A) → is_empty xs ≡ true → xs ≡ []
empty-list [] e = refl
empty-list (x ∷ xs) e = ground (arith, e)

check_text-fits :
    (value : Option Text) (empty over : ParamsError)
    → check_text value empty over ≡ none
    → TextFits value
unfolding check_text is_some_and
check_text-fits none empty over e = tt
check_text-fits (some t) empty over e =
    let (a, b) = then-none _ _ e in
    let c = fail_if-none (is_empty t) empty a in
    let d = fail_if-none (ltb limit (length t)) over b in
    elim (is_empty-cases t) [
      | inl (f, g) ↦ ground (arith, c, f)
      | inr (f, g) ↦ (g, ground (arith, d, limit-max_bytes))
    ]

fits-check_text :
    (value : Option Text) (empty over : ParamsError)
    → TextFits value
    → check_text value empty over ≡ none
unfolding check_text is_some_and
fits-check_text none empty over h = ground arith
fits-check_text (some t) empty over (nonempty, small) =
    let c : is_empty t ≡ false = elim (is_empty-cases t) [
      | inl (f, g) ↦ absurd (nonempty g)
      | inr (f, g) ↦ f
    ] in
    let d : ltb limit (length t) ≡ false = ground (arith, small, limit-max_bytes) in
    none-then _ _ (none-fail_if (is_empty t) empty c) (none-fail_if (ltb limit (length t)) over d)

any_empty-none : (c : List Text) → any_empty c ≡ false → All (λ t. t ≢ []) c
unfolding any_empty
any_empty-none [] e = tt
any_empty-none (t ∷ c) e = elim (is_empty-cases t) [
  | inl (f, g) ↦ ground (arith, e, f)
  | inr (f, g) ↦ (g, any_empty-none c (ground (arith, e, f)))
]

none-any_empty : (c : List Text) → All (λ t. t ≢ []) c → any_empty c ≡ false
unfolding any_empty
none-any_empty [] h = refl
none-any_empty (t ∷ c) (nonempty, h) = elim (is_empty-cases t) [
  | inl (f, g) ↦ absurd (nonempty g)
  | inr (f, g) ↦ ground (arith, f, none-any_empty c h)
]

object_holds : (o : Option Bool) → o ≢ some false → is_some_and o (λ b. not b) ≡ false
unfolding is_some_and
object_holds none h = refl
object_holds (some true) h = refl
object_holds (some false) h = absurd (h refl)

module _ {F J : Type 0} (floats : FloatTests F) (json_length : J → ℕ) where
  abbrev JsonFits : Option J → Type 0
  JsonFits none = Unit
  JsonFits (some j) = json_length j ≤ max_bytes

  -- Exactly one constraint is given, and it is within its bounds.
  abbrev pub StructuredFits : StructuredOutputParams J → Type 0
  StructuredFits o =
      (given o.json_schema
          + given o.json_object
          + given o.xml
          + given o.regex
          + given o.grammar
          + given o.choice
        ≡ 1)
      × (o.json_object ≢ some false)
      × TextFits o.xml
      × TextFits o.regex
      × TextFits o.grammar
      × ChoiceFits o.choice
      × JsonFits o.json_schema

  active-given :
      (o : StructuredOutputParams J)
      → active floats json_length o
        ≡ given o.json_schema
          + given o.json_object
          + given o.xml
          + given o.regex
          + given o.grammar
          + given o.choice
  unfolding active count_true
  active-given o = omega (
    arith,
    count_true-given o.json_schema,
    count_true-given o.json_object,
    count_true-given o.xml,
    count_true-given o.regex,
    count_true-given o.grammar,
    count_true-given o.choice,
  )

  json_checks : (s : Option J) → is_some_and s (λ j. ltb limit (json_length j)) ≡ false → JsonFits s
  unfolding is_some_and
  json_checks none e = tt
  json_checks (some j) e = ground (arith, e, limit-max_bytes)

  checks_json : (s : Option J) → JsonFits s → is_some_and s (λ j. ltb limit (json_length j)) ≡ false
  unfolding is_some_and
  checks_json none h = refl
  checks_json (some j) h = ground (arith, h, limit-max_bytes)

  size_checks :
      (schema : Option J) (choice : Option (List Text))
      → (is_some_and choice (λ c. is_empty c || any_empty c) ≡ false)
      → (is_some_and schema (λ j. ltb limit (json_length j))
            || is_some_and choice (λ c. ltb limit (total_length c))
          ≡ false)
      → ChoiceFits choice × JsonFits schema
  unfolding is_some_and
  size_checks none none e f = (tt, tt)
  size_checks (some j) none e f = (tt, ground (arith, f, limit-max_bytes))
  size_checks schema (some c) e f = elim (is_empty-cases c) [
    | inl (g, h) ↦ ground (arith, e, g)
    | inr (g, h) ↦ (
      (
        h,
        any_empty-none c (ground (arith, e, g)),
        ground (arith, f, limit-max_bytes, total_length-bytes_in c),
      ),
      json_checks schema (ground (arith, f)),
    )
  ]

  pub validate_structured-fits :
      (o : StructuredOutputParams J)
      → validate_structured floats json_length o ≡ none
      → StructuredFits o
  unfolding validate_structured is_some_and
  validate_structured-fits o e =
      let (e, size) = then-none _ _ e in
      let (e, choice) = then-none _ _ e in
      let (e, grammar) = then-none _ _ e in
      let (e, regex) = then-none _ _ e in
      let (e, xml) = then-none _ _ e in
      let (one, object) = then-none _ _ e in
      let (c, j) =
        size_checks o.json_schema o.choice (fail_if-none _ _ choice) (fail_if-none _ _ size) in
      let one : not (active floats json_length o == 1) ≡ false = fail_if-none _ _ one in
      let object : is_some_and o.json_object (λ b. not b) ≡ false = fail_if-none _ _ object in
      (
        ground (arith, one, active-given o),
        (λ h. ground (arith, object, h)),
        check_text-fits _ _ _ xml,
        check_text-fits _ _ _ regex,
        check_text-fits _ _ _ grammar,
        c,
        j,
      )

  checks_size :
      (schema : Option J) (choice : Option (List Text))
      → ChoiceFits choice
      → JsonFits schema
      → (is_some_and choice (λ c. is_empty c || any_empty c) ≡ false)
        × (is_some_and schema (λ j. ltb limit (json_length j))
              || is_some_and choice (λ c. ltb limit (total_length c))
            ≡ false)
  unfolding is_some_and
  checks_size schema none h j = (refl, ground (arith, checks_json schema j))
  checks_size schema (some c) (nonempty, all, small) j = elim (is_empty-cases c) [
    | inl (g, h) ↦ absurd (nonempty h)
    | inr (g, h) ↦ (
      ground (arith, g, none-any_empty c all),
      ground (arith, checks_json schema j, small, limit-max_bytes, total_length-bytes_in c),
    )
  ]

  pub fits-validate_structured :
      (o : StructuredOutputParams J)
      → StructuredFits o
      → validate_structured floats json_length o ≡ none
  unfolding validate_structured is_some_and
  fits-validate_structured o (one, object, xml, regex, grammar, choice, schema) =
      let (c, j) = checks_size o.json_schema o.choice choice schema in
      let one : not (active floats json_length o == 1) ≡ false =
        ground (arith, one, active-given o) in
      let object : is_some_and o.json_object (λ b. not b) ≡ false =
        object_holds o.json_object object in
      none-then _ _
        (none-then _ _
          (none-then _ _
            (none-then _ _
              (none-then _ _ (none-then _ _ (none-fail_if _ _ one) (none-fail_if _ _ object))
                (fits-check_text _ _ _ xml))
              (fits-check_text _ _ _ regex))
            (fits-check_text _ _ _ grammar))
          (none-fail_if _ _ c))
        (none-fail_if _ _ j)
