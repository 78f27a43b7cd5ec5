-- ===== src/Answer.antt =====
-- Answers of a language model: the prompt that evidence becomes, the citations in the text that
-- comes back, and their validation.
pub mod Prompt
pub mod Citations
pub mod Validator
pub mod Labels
pub mod Extraction
pub mod Partition
pub mod Composition
pub mod Gaps
pub mod Classified
mod Tests
