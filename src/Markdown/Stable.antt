-- ===== src/Markdown/Stable.antt =====
-- What more lines leave of the blocks of a streamed text.
use github_idea_os_app.Base.{
  String, ◌≡◌, refl, sym, ap, ◌∙◌, inl, inr, List, [], ◌∷◌, ◌++◌, Bool-cases, if_lem, ◌==◌,
  string_eq, nat_eq, option_eq, is_nonempty,
}
use github_idea_os_app.Base.Text.{trim, starts_with, lines_from, split_lines}
use github_idea_os_app.Markdown.Blocks.{
  Block, Scan, flush_paragraph, add_line, code_fence, math_fence, text_line, scan_line, scan,
  flush_rest, split_into_blocks, start,
}
use mathlib.Core.List.{append_assoc as list_append_assoc, append-nil as list_append-nil}
use native.Mathlib.Decide.{ℕ_discrete}
use Prim.Native.Char.{code}
use Prim.Native.String.{◌++◌ as text_append}
use Prim.Native.String.append

-- The blocks before the active one.
abbrev pub init {ℓ} : {A : Type ℓ} → List A → List A
init [] = []
init (x ∷ []) = []
init (x ∷ y ∷ xs) = x ∷ init (y ∷ xs)

init-concat : (bs : List Block) (b : Block) → init (bs ++ b ∷ []) ≡ bs
init-concat [] b = refl
init-concat (c ∷ []) b = refl
init-concat (c ∷ d ∷ bs) b = ap (λ rest. c ∷ rest) (init-concat (d ∷ bs) b)

-- `bs` begins with `front`.
abbrev pub Begins : List Block → List Block → Type 0
Begins front bs = (rest : List Block) × (bs ≡ front ++ rest)

Begins-refl : (bs : List Block) → Begins bs bs
Begins-refl bs = ([], sym (list_append-nil bs))

Begins-append : (bs cs : List Block) → Begins bs (bs ++ cs)
Begins-append bs cs = (cs, refl)

Begins-trans : (front bs cs : List Block) → Begins front bs → Begins bs cs → Begins front cs
Begins-trans front bs cs (xs, p) (ys, q) =
    (xs ++ ys, q ∙ ap (λ l. l ++ ys) p ∙ list_append_assoc front xs ys)

init-Begins : (bs : List Block) → Begins (init bs) bs
init-Begins [] = ([], refl)
init-Begins (b ∷ []) = (b ∷ [], refl)
init-Begins (b ∷ c ∷ bs) = let more = init-Begins (c ∷ bs) in (more.0, ap (λ rest. b ∷ rest) more.1)

flush_paragraph-Begins : (s : Scan) → Begins s.blocks (flush_paragraph s).blocks
unfolding flush_paragraph
flush_paragraph-Begins s = elim (Bool-cases (is_nonempty (trim s.current_block))) [
  | inl e ↦ simp e (Begins-append s.blocks _)
  | inr e ↦ simp e (Begins-refl s.blocks)
]

code_fence-Begins : (line : String) (s : Scan) → Begins s.blocks (code_fence line s).blocks
unfolding code_fence
code_fence-Begins line s = elim (Bool-cases s.in_code_block) [
  | inl e ↦ simp e (Begins-append s.blocks _)
  | inr e ↦ simp e (flush_paragraph-Begins s)
]

math_fence-Begins : (line : String) (s : Scan) → Begins s.blocks (math_fence line s).blocks
unfolding math_fence
math_fence-Begins line s = elim (Bool-cases s.in_math_block) [
  | inl e ↦ simp e (Begins-append s.blocks _)
  | inr e ↦ simp e (flush_paragraph-Begins s)
]

-- What holds after each way of reading a line.
pub scan_line_lem {κ} :
    (P : Scan → Type κ) (line : String) (s : Scan)
    → P (code_fence line s)
    → P (add_line line s)
    → P (math_fence line s)
    → P (flush_paragraph s)
    → P (text_line line s)
    → P (scan_line line s)
unfolding scan_line
scan_line_lem P line s code add math flush txt = if_lem P (starts_with line "```") _ _ code (
    if_lem P s.in_code_block _ _ add (
      if_lem P (trim line == "$$") _ _ math
        (if_lem P s.in_math_block _ _ add (if_lem P (line == "") _ _ flush txt))))

scan_line-Begins : (line : String) (s : Scan) → Begins s.blocks (scan_line line s).blocks
unfolding text_line
scan_line-Begins line s =
    scan_line_lem (λ t. Begins s.blocks t.blocks) line s (code_fence-Begins line s)
      (Begins-refl s.blocks) (math_fence-Begins line s) (flush_paragraph-Begins s)
      (Begins-refl s.blocks)

scan-Begins : (lines : List String) (s : Scan) → Begins s.blocks (scan lines s).blocks
unfolding scan
scan-Begins [] s = Begins-refl s.blocks
scan-Begins (line ∷ lines) s =
    Begins-trans s.blocks (scan_line line s).blocks (scan lines (scan_line line s)).blocks
      (scan_line-Begins line s) (scan-Begins lines (scan_line line s))

scan-append : (xs ys : List String) (s : Scan) → scan (xs ++ ys) s ≡ scan ys (scan xs s)
unfolding scan
scan-append [] ys s = refl
scan-append (x ∷ xs) ys s = scan-append xs ys (scan_line x s)

flush_rest-Begins : (s : Scan) → Begins s.blocks (flush_rest s)
unfolding flush_rest
flush_rest-Begins s =
    if_lem (λ bs. Begins s.blocks bs) _ _ _ (Begins-append s.blocks _) (Begins-refl s.blocks)

-- Only a last block that the flush adds, or else the last one, is left out.
init-flush_rest : (s : Scan) → Begins (init (flush_rest s)) s.blocks
unfolding flush_rest
init-flush_rest s = elim (Bool-cases (is_nonempty s.current_block)) [
  | inl e ↦ simp (e, init-concat) (Begins-refl s.blocks)
  | inr e ↦ simp e (init-Begins s.blocks)
]

-- The lines of a text, a line break and a text.
lines_from-append :
    (s t : String)
    → lines_from (text_append s (text_append "\n" t))
      ≡ ((lines_from s).0, (lines_from s).1 ++ split_lines t)
unfolding split_lines lines_from ℕ_discrete
lines_from-append String.[] t =
    rw (append.nil (text_append "\n" t), append.cons "\n" "" t, append.nil t) refl
lines_from-append (String.◌∷◌ c s) t = elim (Bool-cases (code c == 10)) [
  | inl e ↦ rw (append.cons c s (text_append "\n" t), lines_from-append s t, e) refl
  | inr e ↦ rw (append.cons c s (text_append "\n" t), lines_from-append s t, e) refl
]

split_lines-append :
    (s t : String)
    → split_lines (text_append s (text_append "\n" t)) ≡ split_lines s ++ split_lines t
unfolding split_lines
split_lines-append s t = ap (λ all. all.0 ∷ all.1) (lines_from-append s t)

-- When whole lines come after a text, the blocks of the text but the last one stay as they are: the
-- blocks of the longer text begin with them.
pub split_into_blocks-append :
    (content more : String)
    → Begins
        (init (split_into_blocks content))
        (split_into_blocks (text_append content (text_append "\n" more)))
unfolding split_into_blocks
split_into_blocks-append content more =
    rw (split_lines-append content more, scan-append (split_lines content) (split_lines more) start)
      (Begins-trans _ (scan (split_lines content) start).blocks _
        (init-flush_rest (scan (split_lines content) start))
        (Begins-trans _ _ _ (scan-Begins (split_lines more) (scan (split_lines content) start))
          (flush_rest-Begins (scan (split_lines more) (scan (split_lines content) start)))))
