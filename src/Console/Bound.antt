-- ===== src/Console/Bound.antt =====
-- web/src/pages/ServerDetail.tsx: the lines that `push` keeps.
use mirocraft.Prelude.{
  last_of, last_of-append, length-last_of, last_of-short, length-map, map-append, map-last_of, ◌≡◌,
  ap, sym, ◌∙◌, inl, inr, ◌≤◌, List, [], ◌∷◌, ◌++◌, map, length, ltb, Bool-cases, arith, subst,
  append-nil, append_assoc,
}
use mirocraft.Console.{Console, Frame, Line, push, max_rendered_lines}

abbrev frame_line : Frame → Line
frame_line f = f.line

abbrev pub shown : Console → List Line
shown c = map frame_line c.lines

abbrev pub pushed : Line → Console → List Frame
pushed line c = c.lines ++ record { key = c.next_key; line = line } ∷ []

pub push-lines :
    (line : Line) (c : Console) → (push line c).lines ≡ last_of max_rendered_lines (pushed line c)
unfolding push
push-lines line c = elim (Bool-cases (ltb max_rendered_lines (length (pushed line c)))) [
  | inl long ↦ rw long
  | inr short ↦ rw short (sym (last_of-short max_rendered_lines (pushed line c) (ground arith)))
]

pub push-length : (l : Line) (c : Console) → length (push l c).lines ≤ max_rendered_lines
push-length l c =
    subst (λ (fs : List Frame). length fs ≤ max_rendered_lines) (sym (push-lines l c))
      (length-last_of max_rendered_lines (pushed l c))

push-shown :
    (l : Line) (c : Console) → shown (push l c) ≡ last_of max_rendered_lines (shown c ++ l ∷ [])
push-shown l c =
    ap (map frame_line) (push-lines l c)
    ∙ map-last_of frame_line max_rendered_lines (pushed l c)
    ∙ ap (last_of max_rendered_lines)
        (map-append frame_line c.lines (record { key = c.next_key; line = l } ∷ []))

-- The lines that come in one after the other.
unfoldable pub push_all : List Line → Console → Console
push_all [] c = c
push_all (l ∷ ls) c = push_all ls (push l c)

-- However many lines come in, one after the other, a console with at most a thousand lines then
-- shows the last thousand of what it showed before and of them, in their order.
pub push_all-shown :
    (ls : List Line) (c : Console)
    → length c.lines ≤ max_rendered_lines
    → shown (push_all ls c) ≡ last_of max_rendered_lines (shown c ++ ls)
unfolding push_all
push_all-shown [] c h = sym (
    ap (last_of max_rendered_lines) (append-nil (shown c))
    ∙ last_of-short max_rendered_lines (shown c) (omega (arith, length-map frame_line c.lines)))
push_all-shown (l ∷ ls) c h =
    push_all-shown ls (push l c) (push-length l c)
    ∙ ap (λ seen. last_of max_rendered_lines (seen ++ ls)) (push-shown l c)
    ∙ last_of-append max_rendered_lines (shown c ++ l ∷ []) ls
    ∙ ap (last_of max_rendered_lines) (append_assoc (shown c) (l ∷ []) ls)
