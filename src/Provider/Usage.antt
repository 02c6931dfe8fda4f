-- ===== src/Provider/Usage.antt =====
-- The parsers of internal/provider: from a response body to its token counts. Decoding JSON is a
-- function of each parser's section; what it decodes into is the record of the source.
pub mod Lines
pub mod OpenAi
pub mod Anthropic
mod Counts
pub mod Gemini
pub mod Bedrock
pub mod Split
