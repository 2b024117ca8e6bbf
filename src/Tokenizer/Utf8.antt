-- ===== src/Tokenizer/Utf8.antt =====
-- crates/rllm-tokenizer/src/detokenizer.rs: stop tokens, and the bytes of characters that are split
-- between tokens. `String::from_utf8_lossy` is a parameter.
pub mod Stream
use mathlib.Core.List.{reverse}
use r_llm.Shared.{
  ℕ, zero, suc, ◌+◌, ◌-◌, ◌%◌, ◌^◌, Bool, true, false, ◌&&◌, Option, none, some, List, [], ◌∷◌,
  ◌++◌, ◌==◌, ltb, leb, if◌then◌else◌, length, is_empty, take, drop,
}

-- The fields that `check_stop_token` reads and writes.
pub record StopTokens : Type 0 where
  pub stop_token_ids : List ℕ
  pub eos_token_id : Option ℕ
  pub min_tokens : ℕ
  pub tokens_generated : ℕ

pub data StopResult : Type 0 where
  continue stopped_by_eos : StopResult
  stopped_by_token_id : ℕ → StopResult

abbrev is_id : Option ℕ → ℕ → Bool
is_id none id = false
is_id (some e) id = e == id

unfoldable pub contains : List ℕ → ℕ → Bool
contains [] id = false
contains (x ∷ xs) id = if x == id then true else contains xs id

-- `tokens_generated` is a `u32`, and wraps as in a release build.
unfoldable check_stop_token : StopTokens → ℕ → StopResult × StopTokens
check_stop_token s token_id =
    let n = (s.tokens_generated + 1) % 2 ^ 32 in
    let result : StopResult =
      if is_id s.eos_token_id token_id && ltb s.min_tokens n
      then stopped_by_eos
      else if ltb s.min_tokens n && contains s.stop_token_ids token_id
      then stopped_by_token_id token_id
      else continue in
    (result, record s { tokens_generated = n })

unfoldable pub utf8_sequence_length : ℕ → ℕ
utf8_sequence_length first_byte =
    if ltb first_byte 0x80
    then 1
    else if ltb first_byte 0xE0
    then 2
    else if ltb first_byte 0xF0
    then 3
    else 4

-- The test on the last byte.
unfoldable is_clean_byte : ℕ → Bool
is_clean_byte last =
    if leb 0x80 last && leb last 0xBF
    then false
    else if leb 0xC0 last && leb last 0xF7
    then false
    else true

unfoldable pub last_is_clean : List ℕ → Bool
unfolding is_clean_byte
last_is_clean [] = true
last_is_clean (b ∷ []) = is_clean_byte b
last_is_clean (b ∷ c ∷ bs) = last_is_clean (c ∷ bs)

unfoldable is_clean_utf8_boundary : List ℕ → Bool
unfolding last_is_clean
is_clean_utf8_boundary bytes = last_is_clean bytes

-- The loop from the end: the list holds `bytes[..i]`, the last byte first.
unfoldable pub scan_back : ℕ → List ℕ → ℕ
unfolding utf8_sequence_length
scan_back len [] = 0
scan_back len (b ∷ before) =
    let rest = scan_back len before in
    if ltb b 0x80
    then suc (length before)
    else if leb 0xC0 b
    then (if leb (utf8_sequence_length b) (len - length before) then len else length before)
    else rest

unfoldable pub find_safe_utf8_boundary : List ℕ → ℕ
unfolding scan_back
find_safe_utf8_boundary bytes = scan_back (length bytes) (reverse bytes)

-- The decoded text, and the bytes that wait for the next call.
unfoldable pub decode_utf8_partial {ℓ} : {S : Type ℓ} → (List ℕ → S) → List ℕ → List ℕ → S × List ℕ
unfolding is_clean_utf8_boundary find_safe_utf8_boundary
decode_utf8_partial from_utf8_lossy partial_bytes new_bytes =
    let bytes = partial_bytes ++ new_bytes in
    if is_empty partial_bytes && is_clean_utf8_boundary new_bytes
    then (from_utf8_lossy new_bytes, partial_bytes)
    else (
      from_utf8_lossy (take (find_safe_utf8_boundary bytes) bytes),
      drop (find_safe_utf8_boundary bytes) bytes,
    )
