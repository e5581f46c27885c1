-- ===== src/FilePath/Normalize.antt =====
-- NormalizePath of core/path.go against its description: the non-empty parts of the path, joined.
use blob.Prelude.{◌≡◌, refl, sym, ap, ◌∙◌, Bool, true, false, not, ◌&&◌, ◌||◌, List, [], ◌∷◌, All}
use blob.Prelude.Bytes.{Bytes, equal}
use blob.FilePath.{
  slash, dot_path, dot_dot_path, trim_left, trim_right, split, join, non_empty, normalize_path,
}
use blob.FilePath.Split.{
  IsSegment, split-join, split-segments, non_empty-segments, non_empty-non_empty,
  non_empty-trim_left, non_empty-trim_right,
}

abbrev pub parts : Bytes → List Bytes
parts p = non_empty (split slash p)

-- The root is written ".".
unfoldable pub render : List Bytes → Bytes
render [] = dot_path
render (s ∷ ss) = join slash (s ∷ ss)

render_elim :
    (ss : List Bytes) → (elim ss [ [] ↦ dot_path | s ∷ ss ↦ join slash (s ∷ ss) ]) ≡ render ss
unfolding render
render_elim [] = refl
render_elim (s ∷ ss) = refl

normalize_trimmed :
    (q : Bytes)
    → (elim q [
      | [] ↦ dot_path
      | b ∷ bs ↦ elim (non_empty (split slash (b ∷ bs))) [
        | [] ↦ dot_path
        | s ∷ ss ↦ join slash (s ∷ ss)
      ]
    ])
      ≡ render (parts q)
normalize_trimmed [] = unfold split non_empty render in refl
normalize_trimmed (b ∷ bs) = render_elim (non_empty (split slash (b ∷ bs)))

-- NormalizePath joins the non-empty parts of its argument, and writes "." where there are none.
pub normalize_path-render : (p : Bytes) → normalize_path p ≡ render (parts p)
unfolding normalize_path
normalize_path-render p =
    normalize_trimmed (trim_right slash (trim_left slash p))
    ∙ ap render (non_empty-trim_right slash (trim_left slash p) ∙ non_empty-trim_left slash p)

-- The parts of a rendered list of non-empty segments.
split-render :
    (s : Bytes) (ss : List Bytes)
    → All (IsSegment slash) (s ∷ ss)
    → split slash (render (s ∷ ss)) ≡ s ∷ ss
unfolding render
split-render s ss h = split-join slash s ss h.0 h.1

render-render :
    (ss : List Bytes)
    → All (IsSegment slash) ss
    → non_empty ss ≡ ss
    → render (parts (render ss)) ≡ render ss
render-render [] h e = unfold render split non_empty join in refl
render-render (s ∷ ss) h e = ap render (ap non_empty (split-render s ss h) ∙ e)

-- NormalizePath changes nothing in a path that it has normalized.
pub normalize_path_idem : (p : Bytes) → normalize_path (normalize_path p) ≡ normalize_path p
normalize_path_idem p =
    normalize_path-render (normalize_path p)
    ∙ ap (λ q. render (parts q)) (normalize_path-render p)
    ∙ render-render (parts p) (non_empty-segments slash (split slash p) (split-segments slash p))
        (non_empty-non_empty (split slash p))
    ∙ sym (normalize_path-render p)

-- No part is "." or "..".
unfoldable pub no_dots : List Bytes → Bool
no_dots [] = true
no_dots (s ∷ ss) = not (equal s dot_path || equal s dot_dot_path) && no_dots ss

-- The one part ".".
unfoldable pub only_dot : List Bytes → Bool
only_dot [] = true
only_dot (s ∷ []) = equal s dot_path
only_dot (s ∷ t ∷ ts) = false
