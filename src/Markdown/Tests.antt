-- ===== src/Markdown/Tests.antt =====
-- A paragraph, a code block and an open paragraph.
use github_idea_os_app.Base.{
  String, ◌≡◌, refl, true, false, [], ◌∷◌, Bool-cases, string_eq, string_discrete, nat_eq,
  option_eq,
}
use github_idea_os_app.Markdown.Hash.{simple_hash, code_units}
use github_idea_os_app.Markdown.Hash.Bounds.{read36, unbounded_hash, simple_hash_lem}
use Prim.Native.Nat.{◌^◌, ◌%◌, ◌≤◌}
use github_idea_os_app.Markdown.Blocks.{
  split_into_blocks, flush_rest, scan, scan_line, code_fence, math_fence, flush_paragraph,
  text_line,
}
use github_idea_os_app.Markdown.Ink.{ink, contents}
use github_idea_os_app.Markdown.Laws.{ink-split_into_blocks}
use github_idea_os_app.Markdown.Stable.{init, Begins, split_into_blocks-append}
use github_idea_os_app.Base.Text.{starts_with, trim, trim_start, trim_end, split_lines, lines_from}
use native.Mathlib.Decide.{ℕ_discrete}
use Prim.Native.String.{◌++◌ as text_append, count}

abbrev content : String
content = "Hello\n\n```js\ncode\n```\n\nMore"

three_blocks :
    split_into_blocks content
    ≡ record { content = "Hello"; is_code_block = false }
      ∷ record { content = "```js\ncode\n```"; is_code_block = true }
      ∷ record { content = "More"; is_code_block = false }
      ∷ []
unfolding split_into_blocks split_lines lines_from scan scan_line code_fence math_fence
    flush_paragraph text_line flush_rest starts_with trim trim_start trim_end string_discrete
    Bool-cases ℕ_discrete
three_blocks = refl

ink-split_into_blocks_example : ink (contents (split_into_blocks content)) ≡ ink content
ink-split_into_blocks_example = ink-split_into_blocks content

split_into_blocks-append_example :
    Begins
      (init (split_into_blocks content))
      (split_into_blocks (text_append content (text_append "\n" "and more")))
split_into_blocks-append_example = split_into_blocks-append content "and more"

simple_hash_lem_example :
    (count (simple_hash "ab") ≤ 7)
    × (read36 0 (simple_hash "ab") ≡ unbounded_hash 5381 (code_units "ab") % 2 ^ 32)
simple_hash_lem_example = simple_hash_lem "ab"
