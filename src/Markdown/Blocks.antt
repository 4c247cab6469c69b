-- ===== src/Markdown/Blocks.antt =====
-- `splitIntoBlocks` and the keys of the blocks.
use github_idea_os_app.Base.{
  ℕ, suc, String, Bool, true, false, ◌||◌, List, [], ◌∷◌, ◌++◌, if◌then◌else◌, ◌==◌, string_eq,
  nat_eq, option_eq, is_nonempty,
}
use github_idea_os_app.Base.Text.{trim, starts_with, split_lines}
use github_idea_os_app.Markdown.Hash.{simple_hash}
use Prim.Native.String.{◌++◌ as text_append}

pub record Block : Type 0 where
  pub content : String
  pub is_code_block : Bool

-- The variables of the loop.
pub record Scan : Type 0 where
  pub blocks : List Block
  pub current_block : String
  pub in_code_block : Bool
  pub in_math_block : Bool

abbrev pub start : Scan
start = record { blocks = []; current_block = ""; in_code_block = false; in_math_block = false }

abbrev pub push : String → Bool → Scan → Scan
push content code s = record s {
  blocks = s.blocks ++ record { content = content; is_code_block = code } ∷ [];
  current_block = "";
}

-- `if (currentBlock.trim()) { blocks.push(…); currentBlock = '' }`
unfoldable pub flush_paragraph : Scan → Scan
flush_paragraph s =
    if is_nonempty (trim s.current_block) then push (trim s.current_block) false s else s

abbrev pub add_line : String → Scan → Scan
add_line line s = record s { current_block = text_append s.current_block (text_append line "\n") }

unfoldable pub code_fence : String → Scan → Scan
code_fence line s =
    if s.in_code_block
    then record (push (text_append s.current_block line) true s) { in_code_block = false }
    else record (flush_paragraph s) { current_block = text_append line "\n"; in_code_block = true }

unfoldable pub math_fence : String → Scan → Scan
math_fence line s =
    if s.in_math_block
    then record (push (text_append s.current_block line) false s) { in_math_block = false }
    else record (flush_paragraph s) { current_block = text_append line "\n"; in_math_block = true }

unfoldable pub text_line : String → Scan → Scan
text_line line s = record s {
  current_block =
      if is_nonempty s.current_block
      then text_append s.current_block (text_append "\n" line)
      else line;
}

-- One round of the loop.
unfoldable pub scan_line : String → Scan → Scan
scan_line line s =
    if starts_with line "```"
    then code_fence line s
    else if s.in_code_block
    then add_line line s
    else if trim line == "$$"
    then math_fence line s
    else if s.in_math_block
    then add_line line s
    else if line == ""
    then flush_paragraph s
    else text_line line s

unfoldable pub scan : List String → Scan → Scan
scan [] s = s
scan (line ∷ lines) s = scan lines (scan_line line s)

-- `Flush remaining content`
unfoldable pub flush_rest : Scan → List Block
flush_rest s =
    if is_nonempty s.current_block
    then s.blocks
      ++ record {
        content =
            if s.in_code_block || s.in_math_block then s.current_block else trim s.current_block;
        is_code_block = s.in_code_block;
      }
        ∷ []
    else s.blocks

unfoldable pub split_into_blocks : String → List Block
split_into_blocks content = flush_rest (scan (split_lines content) start)

-- The key of the block at an index: the last one is the active one.
unfoldable pub keys_from : (ℕ → String) → ℕ → List Block → List String
keys_from to_text i [] = []
keys_from to_text i (block ∷ []) = text_append "active-" (to_text i) ∷ []
keys_from to_text i (block ∷ next ∷ rest) =
    text_append "block-" (text_append (to_text i) (text_append "-" (simple_hash block.content)))
    ∷ keys_from to_text (suc i) (next ∷ rest)

unfoldable pub block_keys : (ℕ → String) → String → Bool → List String
block_keys to_text content is_streaming =
    keys_from to_text 0 (if is_streaming then split_into_blocks content else [])
