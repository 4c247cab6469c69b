-- ===== src/Markdown.antt =====
-- apps/web/components/markdown/StreamingMarkdown.tsx: the blocks of a streamed text and their keys.
-- `to_text` stands for the text of a number in a template.
pub mod Hash
pub mod Blocks
mod Ink
mod Laws
mod Stable
mod Tests
