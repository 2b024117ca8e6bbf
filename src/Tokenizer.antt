-- ===== src/Tokenizer.antt =====
-- crates/rllm-tokenizer: the streaming detokenizer.
pub mod Utf8
