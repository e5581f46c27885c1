-- ===== src/Dir/Pages.antt =====
-- The pages of openDir.ReadDir (core/blob.go) against the listing.
use mathlib.Core.Path.{subst}
use blob.Prelude.{
  ℕ, zero, suc, ◌+◌, ◌≡◌, refl, sym, ap, ◌∙◌, Option, none, some, List, [], ◌∷◌, arith, length,
  take, drop, ok, err, Result, eof, ◌⊎◌, inl, inr,
}
use blob.Dir.{DirEntry, DirIter, next, collect, page_loop, page_result, read_page, read_all}
use blob.Dir.Listing.{listing, Takes, next-Takes, read_all_loop-Exhausts}

-- The first `n` entries of the listing, and an iterator at the rest.
abbrev pub Cuts : ℕ → DirIter → List DirEntry × DirIter → Type 0
Cuts n it (es, it') = (es ≡ take n (listing it)) × (listing it' ≡ drop n (listing it))

collect-Cuts :
    (n : ℕ) (it : DirIter) (again : DirIter → List DirEntry × DirIter)
    (r : Option DirEntry × DirIter)
    → Takes it r
    → ((it' : DirIter) → Cuts n it' (again it'))
    → Cuts (suc n) it (collect again r)
collect-Cuts n it again (none, it') t ih =
    (sym (ap (take (suc n)) t.0), t.1 ∙ sym (ap (drop (suc n)) t.0))
collect-Cuts n it again (some x, it') t ih =
    let (p, q) = ih it' in
    (ap (◌∷◌ x) p ∙ sym (ap (take (suc n)) t.0), q ∙ sym (ap (drop (suc n)) t.0))

page_loop-Cuts : (n : ℕ) (it : DirIter) → Cuts n it (page_loop n it)
unfolding page_loop
page_loop-Cuts zero it = (refl, refl)
page_loop-Cuts (suc n) it =
    collect-Cuts n it (page_loop n) (next it) (next-Takes it) (page_loop-Cuts n)

-- A page: io.EOF where nothing is left of the listing, and otherwise its first entries, at least one.
abbrev pub IsPage : ℕ → List DirEntry → Result (List DirEntry) → Type 0
IsPage n left r =
    ((left ≡ []) × (r ≡ err eof))
    ⊎ ((e : DirEntry) × (es : List DirEntry) × (take n left ≡ e ∷ es) × (r ≡ ok (e ∷ es)))

page_result-IsPage :
    (n : ℕ) (left : List DirEntry) → IsPage (suc n) left (page_result (take (suc n) left))
page_result-IsPage n [] = inl (refl, refl)
page_result-IsPage n (e ∷ es) = inr (e, take n es, refl, refl)

-- ReadDir(n) with n > 0 returns the first n entries of what is left of the listing, or io.EOF where
-- nothing is left, and the next call goes on behind them.
pub read_page-Cuts :
    (n : ℕ) (it : DirIter)
    → IsPage (suc n) (listing it) (read_page (suc n) it).0
      × (listing (read_page (suc n) it).1 ≡ drop (suc n) (listing it))
unfolding read_page
read_page-Cuts n it = (
  subst (λ es. IsPage (suc n) (listing it) (page_result es)) (sym (page_loop-Cuts (suc n) it).0)
      (page_result-IsPage n (listing it)),
  (page_loop-Cuts (suc n) it).1,
)

-- ReadDir(0) returns all that is left, and leaves nothing.
pub read_page-rest :
    (it : DirIter) → ((read_page 0 it).0 ≡ ok (listing it)) × (listing (read_page 0 it).1 ≡ [])
unfolding read_page read_all
read_page-rest it =
    let (p, q) = read_all_loop-Exhausts (length it.pending + 1) it (omega arith) in (ap ok p, q)
