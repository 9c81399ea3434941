-- ===== src/Streaming.antt =====
-- The conversion of a graph's stream into Responses events (_converters/_stream.py, _text.py and
-- _utils.py of the hosting package).
pub mod Content
pub mod Emitters
pub mod Queue
pub mod Converter
pub mod Brackets
pub mod Lines
pub mod Drain
pub mod Edits
pub mod Turns
pub mod Sequential
mod Updates
pub mod Whole
pub mod Summaries
pub mod Examples
