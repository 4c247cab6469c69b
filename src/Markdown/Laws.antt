-- ===== src/Markdown/Laws.antt =====
-- What `splitIntoBlocks` keeps of a text.
use github_idea_os_app.Base.{
  ℕ, String, ◌≡◌, refl, sym, ap, ◌∙◌, inl, inr, Bool, true, false, ◌||◌, List, [], ◌∷◌, ◌++◌, arith,
  if◌then◌else◌, Bool-cases, ◌==◌, string_eq, nat_eq, option_eq, is_nonempty,
}
use github_idea_os_app.Base.Text.{is_space, trim, starts_with, lines_from, split_lines}
use github_idea_os_app.Markdown.Blocks.{
  Block, Scan, flush_paragraph, add_line, code_fence, math_fence, text_line, scan_line, scan,
  flush_rest, split_into_blocks, start,
}
use github_idea_os_app.Markdown.Ink.{
  ink, ink-append, ink-trim, contents, seen, seen-push, seen-flush_paragraph, seen-replace,
}
use text.Mathlib.TextLemmas.{append-nil, append_assoc}
use Prim.Native.Char.{code}
use Prim.Native.String.{◌++◌ as text_append}
use Prim.Native.String.append

ink-newline : (line : String) → ink (text_append line "\n") ≡ ink line
unfolding ink
ink-newline line = ink-append line "\n" ∙ append-nil (ink line)

-- The line goes behind what the current block holds.
seen-extend :
    (bs : List Block) (cur line : String)
    → text_append (ink (contents bs)) (ink (text_append cur line))
      ≡ text_append (text_append (ink (contents bs)) (ink cur)) (ink line)
seen-extend bs cur line =
    rw (ink-append cur line, append_assoc (ink (contents bs)) (ink cur) (ink line)) refl

seen-add_line :
    (line : String) (s : Scan) → seen (add_line line s) ≡ text_append (seen s) (ink line)
unfolding seen
seen-add_line line s =
    rw (seen-extend s.blocks s.current_block (text_append line "\n"), ink-newline line) refl

seen-code_fence :
    (line : String) (s : Scan) → seen (code_fence line s) ≡ text_append (seen s) (ink line)
unfolding code_fence seen
seen-code_fence line s = elim (Bool-cases s.in_code_block) [
  | inl e ↦ rw e (
      seen-push (text_append s.current_block line) true s
      ∙ seen-extend s.blocks s.current_block line)
  | inr e ↦ simp (e, ink-newline line) (seen-replace s line)
]

seen-math_fence :
    (line : String) (s : Scan) → seen (math_fence line s) ≡ text_append (seen s) (ink line)
unfolding math_fence seen
seen-math_fence line s = elim (Bool-cases s.in_math_block) [
  | inl e ↦ rw e (
      seen-push (text_append s.current_block line) false s
      ∙ seen-extend s.blocks s.current_block line)
  | inr e ↦ simp (e, ink-newline line) (seen-replace s line)
]

no_text : (s : String) → is_nonempty s ≡ false → s ≡ ""
no_text s h = ground arith

-- The line break before the line is white space.
ink-broken_line : (line : String) → ink (text_append "\n" line) ≡ ink line
unfolding ink
ink-broken_line line = ink-append "\n" line ∙ append.nil (ink line)

seen-text_line :
    (line : String) (s : Scan) → seen (text_line line s) ≡ text_append (seen s) (ink line)
unfolding text_line seen ink
seen-text_line line s = elim (Bool-cases (is_nonempty s.current_block)) [
  | inl e ↦
      rw (e, seen-extend s.blocks s.current_block (text_append "\n" line), ink-broken_line line)
        refl
  | inr e ↦ rw (e, no_text s.current_block e, append-nil (ink (contents s.blocks))) refl
]

seen-empty_line :
    (line : String) (s : Scan)
    → (line == "") ≡ true
    → seen (flush_paragraph s) ≡ text_append (seen s) (ink line)
unfolding ink
seen-empty_line line s h =
    rw (seen-flush_paragraph s, no_text line (ground arith), append-nil (seen s)) refl

ink_lines : List String → String
ink_lines [] = ""
ink_lines (line ∷ lines) = text_append (ink line) (ink_lines lines)

seen-scan_line :
    (line : String) (s : Scan) → seen (scan_line line s) ≡ text_append (seen s) (ink line)
unfolding scan_line seen
seen-scan_line line s = elim (Bool-cases (starts_with line "```")) [
  | inl e ↦ rw e (seen-code_fence line s)
  | inr e ↦ elim (Bool-cases s.in_code_block) [
    | inl f ↦ simp (e, f) (seen-add_line line s)
    | inr f ↦ elim (Bool-cases (trim line == "$$")) [
      | inl g ↦ simp (e, f, g) (seen-math_fence line s)
      | inr g ↦ elim (Bool-cases s.in_math_block) [
        | inl h ↦ simp (e, f, g, h) (seen-add_line line s)
        | inr h ↦ elim (Bool-cases (line == "")) [
          | inl k ↦ simp (e, f, g, h, k) (seen-empty_line line s k)
          | inr k ↦ simp (e, f, g, h, k) (seen-text_line line s)
        ]
      ]
    ]
  ]
]

seen-scan :
    (lines : List String) (s : Scan) → seen (scan lines s) ≡ text_append (seen s) (ink_lines lines)
unfolding scan ink_lines
seen-scan [] s = sym (append-nil (seen s))
seen-scan (line ∷ lines) s =
    rw
      (
        seen-scan lines (scan_line line s),
        seen-scan_line line s,
        append_assoc (seen s) (ink line) (ink_lines lines),
      )
      refl

newline_space : (n : ℕ) → (n == 10) ≡ true → is_space n ≡ true
newline_space n h = ground arith

-- The text is its lines and the line breaks between them.
ink-lines_from : (s : String) → ink_lines ((lines_from s).0 ∷ (lines_from s).1) ≡ ink s
unfolding lines_from ink_lines ink
ink-lines_from String.[] = refl
ink-lines_from (String.◌∷◌ c s) = elim (Bool-cases (code c == 10)) [
  | inl e ↦
      rw
        (
          e,
          newline_space (code c) e,
          append.nil (text_append (ink (lines_from s).0) (ink_lines (lines_from s).1)),
        )
        (ink-lines_from s)
  | inr e ↦ elim (Bool-cases (is_space (code c))) [
    | inl f ↦ rw (e, f) (ink-lines_from s)
    | inr f ↦
        rw (e, f, append.cons c (ink (lines_from s).0) (ink_lines (lines_from s).1))
          (ap (String.◌∷◌ c) (ink-lines_from s))
  ]
]

ink-last : (raw : Bool) (cur : String) → ink (if raw then cur else trim cur) ≡ ink cur
ink-last true cur = refl
ink-last false cur = ink-trim cur

contents-flush_rest : (s : Scan) → ink (contents (flush_rest s)) ≡ seen s
unfolding flush_rest seen contents ink
contents-flush_rest s = elim (Bool-cases (is_nonempty s.current_block)) [
  | inl e ↦ simp e (
      sym (
        append-nil (
          ink (
            contents (
              s.blocks
              ++ record {
                content =
                    if s.in_code_block || s.in_math_block
                    then s.current_block
                    else trim s.current_block;
                is_code_block = s.in_code_block;
              }
                ∷ []))))
      ∙ seen-push
          (if s.in_code_block || s.in_math_block then s.current_block else trim s.current_block)
          s.in_code_block s
      ∙ ap (text_append (ink (contents s.blocks)))
          (ink-last (s.in_code_block || s.in_math_block) s.current_block))
  | inr e ↦ rw (e, no_text s.current_block e, append-nil (ink (contents s.blocks))) refl
]

-- Splitting loses nothing that can be seen: the characters of the blocks that are no white space
-- are those of the text, in the same order.
pub ink-split_into_blocks :
    (content : String) → ink (contents (split_into_blocks content)) ≡ ink content
unfolding split_into_blocks split_lines seen ink contents
ink-split_into_blocks content =
    rw
      (
        contents-flush_rest (scan (split_lines content) start),
        seen-scan (split_lines content) start,
        ink-lines_from content,
        append.nil (ink content),
      )
      refl
