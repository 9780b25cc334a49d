-- ===== src/Model.antt =====
-- model/: the detokenizer and the maps of the tokenizer.
pub mod Detok
pub mod TokMap
mod Tests
