-- ===== src/Tests/Requests.antt =====
-- The theorems on requests, batches and tokens at concrete inputs.
use mathlib.Core.List.{Perm}
use r_llm.Shared.{
  ℕ, ◌≤◌, true, false, none, some, List, [], ◌∷◌, ◌++◌, ◌≡◌, refl, ◌⊎◌, ◌↔◌, inl, inr, arith, ◌≢◌,
  length, take, drop, ◌==◌, leb,
}
use r_llm.Scheduler.Policy.{ℤ, pos, negsuc, QueueEntry, RequestQueue, priority_order, push, pop}
use r_llm.Scheduler.Policy.Order.{IsSorted, Inserted, PopsFirst, push-Holds, push-pop}
use r_llm.Engine.BatchQueue.{BatchQueue, fixed_size, enqueue_all, drain, remove}
use r_llm.Engine.BatchQueue.Account.{
  IsBalanced, Enqueues, enqueue_all-Enqueues, drain-front, Removes, remove-Removes,
}
use r_llm.Core.Status.{
  RequestStatus, running, finished_aborted, is_finished, transition, ok, invalid,
  transition-finished,
}
use r_llm.Core.Params.{SamplingParams, FloatTests, validate, token_ids}
use r_llm.Core.Params.Accepted.{IsAccepted, validate-accepts}
use r_llm.Kernels.Metadata.{
  AttentionMetadata, StepMetadata, MetadataError, from_attention_metadata, empty_step, err,
}
use r_llm.Kernels.Metadata
use r_llm.Kernels.Metadata.Outcome.{IsBatch, IsStep, from_attention_metadata-outcome}
use r_llm.Tokenizer.Utf8.{find_safe_utf8_boundary, decode_utf8_partial}
use r_llm.Tokenizer.Utf8.Stream.{IsCharacter, IsBegun, boundary-characters, decode-characters}
use r_llm.Sampling.Speculative.{NGramProposer, propose, accept_matching_prefix}
use r_llm.Sampling.Speculative.Proposal.{Repeats, propose-Repeats, accept_matching_prefix-longest}

-- "é", "€" and an emoji, of two to four bytes.
abbrev letter : ℕ × List ℕ
letter = (0xC3, 0xA9 ∷ [])

abbrev euro : ℕ × List ℕ
euro = (0xE2, 0x82 ∷ 0xAC ∷ [])

abbrev emoji : ℕ × List ℕ
emoji = (0xF0, 0x9F ∷ 0x98 ∷ 0x80 ∷ [])

letter-IsCharacter : IsCharacter 0xC3 (0xA9 ∷ [])
letter-IsCharacter = record {
  whole = inr (inl (omega arith, omega arith, refl));
  continued = ((omega arith, omega arith), tt);
}

euro-IsCharacter : IsCharacter 0xE2 (0x82 ∷ 0xAC ∷ [])
euro-IsCharacter = record {
  whole = inr (inr (inl (omega arith, omega arith, refl)));
  continued = ((omega arith, omega arith), ((omega arith, omega arith), tt));
}

emoji-IsCharacter : IsCharacter 0xF0 (0x9F ∷ 0x98 ∷ 0x80 ∷ [])
emoji-IsCharacter = record {
  whole = inr (inr (inr (omega arith, omega arith, refl)));
  continued =
      ((omega arith, omega arith), ((omega arith, omega arith), ((omega arith, omega arith), tt)));
}

-- Three of the four bytes of an emoji.
emoji-IsBegun : IsBegun 0xF0 (0x9F ∷ 0x98 ∷ [])
emoji-IsBegun = record {
  asked = 3;
  asks = inr (inr (inr (omega arith, omega arith, refl)));
  short = omega arith;
  continued = ((omega arith, omega arith), ((omega arith, omega arith), tt));
}

boundary_example :
    find_safe_utf8_boundary
      (0xF0 ∷ 0x9F ∷ 0x98 ∷ 0x80 ∷ 0xE2 ∷ 0x82 ∷ 0xAC ∷ 0xF0 ∷ 0x9F ∷ 0x98 ∷ [])
    ≡ 7
boundary_example =
    boundary-characters (emoji ∷ euro ∷ []) (0xF0 ∷ 0x9F ∷ 0x98 ∷ [])
      (emoji-IsCharacter, (euro-IsCharacter, tt)) emoji-IsBegun

decode_example :
    decode_utf8_partial
      (λ (bs : List ℕ). bs)
      (0xC3 ∷ [])
      (0xA9 ∷ 0xE2 ∷ 0x82 ∷ 0xAC ∷ 0xF0 ∷ 0x9F ∷ 0x98 ∷ [])
    ≡ (0xC3 ∷ 0xA9 ∷ 0xE2 ∷ 0x82 ∷ 0xAC ∷ [], 0xF0 ∷ 0x9F ∷ 0x98 ∷ [])
decode_example =
    decode-characters (λ (bs : List ℕ). bs) (0xC3 ∷ [])
      (0xA9 ∷ 0xE2 ∷ 0x82 ∷ 0xAC ∷ 0xF0 ∷ 0x9F ∷ 0x98 ∷ []) (letter ∷ euro ∷ [])
      (0xF0 ∷ 0x9F ∷ 0x98 ∷ []) (letter-IsCharacter, (euro-IsCharacter, tt)) emoji-IsBegun refl

abbrev proposer : NGramProposer
proposer = record { min_ngram = 2; max_ngram = 3 }

abbrev context : List ℕ
context = 1 ∷ 2 ∷ 3 ∷ 1 ∷ 2 ∷ []

propose_example :
    (propose proposer context 2 ≡ [])
    ⊎ ((n start : ℕ) × (2 ≤ n) × (n ≤ 3) × Repeats context 2 n start (propose proposer context 2))
propose_example = propose-Repeats proposer context 2

abbrev draft : List ℕ
draft = 1 ∷ 2 ∷ []

abbrev target : List ℕ
target = 1 ∷ 3 ∷ []

accept_example :
    let n = length (accept_matching_prefix draft target) in
    (take n draft ≡ accept_matching_prefix draft target)
    × (take n target ≡ accept_matching_prefix draft target)
    × ((drop n draft ≡ [])
        ⊎ (drop n target ≡ [])
        ⊎ ((a b : ℕ) × (as' bs : List ℕ) × (drop n draft ≡ a ∷ as')
            × (drop n target ≡ b ∷ bs)
            × (a ≢ b)))
accept_example = accept_matching_prefix-longest draft target

abbrev entry : ℕ → ℤ → ℕ → QueueEntry
entry id priority arrival = record { request_id = id; priority = priority; arrival_time = arrival }

abbrev waiting_queue : RequestQueue
waiting_queue = record {
  entries = entry 1 (pos 5) 10 ∷ entry 2 (pos 0) 11 ∷ [];
  policy = priority_order;
}

abbrev pushed : RequestQueue
pushed = push waiting_queue 3 (negsuc 2) 12

push_example :
    (inserted : List QueueEntry) × Inserted (entry 3 (pos 2) 12) waiting_queue.entries inserted
    × (IsSorted (push waiting_queue 3 (pos 2) 12).entries
        × Perm (push waiting_queue 3 (pos 2) 12).entries inserted)
push_example = push-Holds waiting_queue (entry 3 (pos 2) 12)

push_pop_example :
    (inserted : List QueueEntry) × Inserted (entry 3 (negsuc 2) 12) waiting_queue.entries inserted
    × PopsFirst inserted (pop pushed)
push_pop_example = push-pop waiting_queue (entry 3 (negsuc 2) 12) refl

abbrev batches : BatchQueue ℕ
batches = record {
  pending = 4 ∷ 5 ∷ 9 ∷ [];
  max_capacity = 4;
  strategy = fixed_size 2;
  total_enqueued = 3;
  total_drained = 0;
}

enqueue_example : Enqueues batches (6 ∷ 7 ∷ []) 0 (enqueue_all batches (6 ∷ 7 ∷ []))
enqueue_example = enqueue_all-Enqueues batches (6 ∷ 7 ∷ []) refl

drain_example :
    ((drain batches).0 ++ (drain batches).1.pending ≡ 4 ∷ 5 ∷ 9 ∷ [])
    × (length (drain batches).0 ≡ 2)
    × IsBalanced (drain batches).1
    × ((drain batches).1.total_enqueued ≡ 3)
    × ((drain batches).1.max_capacity ≡ 4)
    × ((drain batches).1.strategy ≡ fixed_size 2)
drain_example = drain-front batches refl

remove_request_example :
    Removes (λ (r : ℕ). r) batches 5 × IsBalanced (remove (λ (r : ℕ). r) batches 5).1
remove_request_example = remove-Removes (λ (r : ℕ). r) batches 5 refl

transition_example :
    ((is_finished running ≡ true)
      × ((t : RequestStatus) → transition running t ≡ invalid running t))
    ⊎ ((is_finished running ≡ false) × (transition running finished_aborted ≡ ok finished_aborted))
transition_example = transition-finished running

-- Tenths stand for the floating-point numbers.
abbrev tenths : FloatTests ℕ
tenths = record {
  below_zero = λ x. false;
  not_positive = λ x. x == 0;
  is_zero = λ x. x == 0;
  up_to_one = λ x. leb x 10;
  up_to_two = λ x. leb x 20;
}

-- The defaults, with one XML grammar of one byte.
abbrev params : SamplingParams ℕ ℕ
params = record {
  n = 1;
  best_of = none;
  presence_penalty = 0;
  frequency_penalty = 0;
  repetition_penalty = 10;
  temperature = 10;
  top_p = 10;
  top_k = negsuc 0;
  min_p = 0;
  seed = none;
  stop = [];
  stop_token_ids = [];
  ignore_eos = false;
  max_tokens = some 16;
  min_tokens = 0;
  logprobs = none;
  prompt_logprobs = none;
  detokenize = true;
  skip_special_tokens = true;
  spaces_between_special_tokens = true;
  include_stop_str_in_output = false;
  output_kind = token_ids;
  logit_bias = [];
  allowed_token_ids = none;
  bad_words = [];
  structured_outputs = some (record {
    json_schema = none;
    json_object = none;
    xml = some (60 ∷ []);
    regex = none;
    grammar = none;
    choice = none;
  });
  skip_reading_prefix_cache = false;
  speculative_decoding = none;
}

validate_example : (validate tenths (λ j. j) params ≡ none) ↔ IsAccepted tenths (λ j. j) params
validate_example = validate-accepts tenths (λ j. j) params

-- Two sequences: three tokens in two pages of two, and one token in one page.
abbrev batch : AttentionMetadata
batch = record {
  seq_lens = 3 ∷ 1 ∷ [];
  query_start_loc = 0 ∷ 3 ∷ 4 ∷ [];
  block_tables = (pos 7 ∷ pos 8 ∷ []) ∷ (pos 9 ∷ []) ∷ [];
  slot_mapping = [];
  num_prefill_tokens = 3;
  num_decode_tokens = 1;
  max_num_blocks_per_seq = 2;
  common_prefix_blocks = 0;
  sliding_window = none;
}

metadata_example :
    (IsBatch batch 2
      × ((out : StepMetadata) × (from_attention_metadata batch 2 ≡ Metadata.ok out)
          × IsStep batch 2 out))
    ⊎ ((e : MetadataError) × (from_attention_metadata batch 2 ≡ err e) × ¬ IsBatch batch 2)
metadata_example = from_attention_metadata-outcome batch 2
