-- ===== src/Markdown/Ink.antt =====
-- The visible characters of a text and of its blocks.
use github_idea_os_app.Base.{
  String, ◌≡◌, refl, sym, ap, ◌∙◌, inl, inr, Bool, true, false, List, [], ◌∷◌, ◌++◌, arith,
  if◌then◌else◌, Bool-cases, string_eq, nat_eq, option_eq, is_nonempty,
}
use github_idea_os_app.Base.Text.{is_space, is_nil, trim, trim_start, trim_end}
use github_idea_os_app.Markdown.Blocks.{Block, Scan, push, flush_paragraph}
use text.Mathlib.TextLemmas.{append-nil, append_assoc}
use Prim.Native.Char.{code}
use Prim.Native.String.{◌++◌ as text_append}
use Prim.Native.String.append

-- The characters that are no white space.
unfoldable pub ink : String → String
ink String.[] = String.[]
ink (String.◌∷◌ c s) = let rest = ink s in if is_space (code c) then rest else String.◌∷◌ c rest

pub ink-append : (s t : String) → ink (text_append s t) ≡ text_append (ink s) (ink t)
unfolding ink
ink-append String.[] t = rw (append.nil t, append.nil (ink t)) refl
ink-append (String.◌∷◌ c s) t = elim (Bool-cases (is_space (code c))) [
  | inl e ↦ rw (append.cons c s t, e, ink-append s t) refl
  | inr e ↦ rw (append.cons c s t, e, append.cons c (ink s) (ink t), ink-append s t) refl
]

ink-trim_start : (s : String) → ink (trim_start s) ≡ ink s
unfolding ink trim_start
ink-trim_start String.[] = refl
ink-trim_start (String.◌∷◌ c s) = elim (Bool-cases (is_space (code c))) [
  | inl e ↦ rw (e, ink-trim_start s) refl
  | inr e ↦ rw (e, ink, e) refl
]

ink-nil : (s : String) → is_nil s ≡ true → ink s ≡ ""
unfolding ink
ink-nil String.[] h = refl
ink-nil (String.◌∷◌ c s) h = cc

ink-trim_end : (s : String) → ink (trim_end s) ≡ ink s
unfolding ink trim_end
ink-trim_end String.[] = refl
ink-trim_end (String.◌∷◌ c s) = elim (Bool-cases (is_nil (trim_end s))) [
  | inl e ↦ elim (Bool-cases (is_space (code c))) [
    | inl f ↦ rw (e, f) (sym (ink-nil (trim_end s) e) ∙ ink-trim_end s)
    | inr f ↦ rw (e, f, ink-trim_end s, f) refl
  ]
  | inr e ↦ rw (e, ink, ink-trim_end s) refl
]

pub ink-trim : (s : String) → ink (trim s) ≡ ink s
unfolding trim
ink-trim s = ink-trim_end (trim_start s) ∙ ink-trim_start s

blank-ink : (s : String) → is_nonempty (trim s) ≡ false → ink s ≡ ""
unfolding ink
blank-ink s h = sym (ink-trim s) ∙ ap ink (empty h)
  where
    empty : is_nonempty (trim s) ≡ false → trim s ≡ ""
    empty h = ground arith

unfoldable pub contents : List Block → String
contents [] = ""
contents (b ∷ bs) = text_append b.content (contents bs)

pub ink-contents-append :
    (bs cs : List Block)
    → ink (contents (bs ++ cs)) ≡ text_append (ink (contents bs)) (ink (contents cs))
unfolding contents ink
ink-contents-append [] cs = rw (append.nil (ink (contents cs))) refl
ink-contents-append (b ∷ bs) cs =
    rw
      (
        ink-append b.content (contents (bs ++ cs)),
        ink-append b.content (contents bs),
        ink-contents-append bs cs,
        append_assoc (ink b.content) (ink (contents bs)) (ink (contents cs)),
      )
      refl

-- What the loop has read.
unfoldable pub seen : Scan → String
seen s = text_append (ink (contents s.blocks)) (ink s.current_block)

-- A block that holds the ink of the current one takes its place.
pub seen-push :
    (content : String) (code : Bool) (s : Scan)
    → seen (push content code s) ≡ text_append (ink (contents s.blocks)) (ink content)
unfolding seen ink contents
seen-push content code s =
    rw
      (
        ink-contents-append s.blocks (record { content = content; is_code_block = code } ∷ []),
        append-nil content,
        append-nil (text_append (ink (contents s.blocks)) (ink content)),
      )
      refl

pub seen-flush_paragraph : (s : Scan) → seen (flush_paragraph s) ≡ seen s
unfolding flush_paragraph seen ink
seen-flush_paragraph s = elim (Bool-cases (is_nonempty (trim s.current_block))) [
  | inl e ↦ rw (e, seen-push (trim s.current_block) false s, ink-trim s.current_block, seen) refl
  | inr e ↦ rw e refl
]

-- After a flush the current block has no ink.
pub flush_paragraph_current : (s : Scan) → ink (flush_paragraph s).current_block ≡ ""
unfolding flush_paragraph ink
flush_paragraph_current s = elim (Bool-cases (is_nonempty (trim s.current_block))) [
  | inl e ↦ rw e refl
  | inr e ↦ rw e (blank-ink s.current_block e)
]

pub seen-replace :
    (s : Scan) (line : String)
    → text_append (ink (contents (flush_paragraph s).blocks)) (ink line)
      ≡ text_append (seen s) (ink line)
unfolding seen ink
seen-replace s line =
    rw
      (
        sym (seen-flush_paragraph s),
        seen,
        flush_paragraph_current s,
        append-nil (ink (contents (flush_paragraph s).blocks)),
      )
      refl
