-- ===== src/Create/Order.antt =====
-- The order of the index that Create (core/create.go) builds, and lookups in it.
use Prim.Native.Nat.{Ordering}
use blob.Prelude.{ℕ, ◌<◌, ◌≡◌, refl, ◌∙◌, none, [], ◌∷◌, ◌++◌}
use blob.Prelude.Bytes.{Bytes, compare_bytes, Before, compare-append, head-Before}
use blob.Entry.{Entry}
use blob.FilePath.{slash}
use blob.Index.{lookup_view, lookup_loop}
use blob.Create.{build_index, view_of}

below-Before :
    (name rest file : Bytes) (c : ℕ)
    → c < slash
    → Before (name ++ (c ∷ rest)) (name ++ (slash ∷ file))
below-Before name rest file c lt =
    compare-append name (c ∷ rest) (slash ∷ file) ∙ head-Before c slash rest file lt

-- An index of two entries, of a file in the directory `name` and then of a file whose name is `name` and
-- a byte smaller than the slash (such as "."), which is the order of a walk by directories: the first
-- entry is not found under its path.
pub build_index-misses :
    (d e : Entry) (name rest file : Bytes) (c size : ℕ) (hash : Bytes)
    → d.path ≡ name ++ (slash ∷ file)
    → e.path ≡ name ++ (c ∷ rest)
    → c < slash
    → lookup_view (build_index (d ∷ e ∷ []) size hash) d.path ≡ none
unfolding lookup_view lookup_loop build_index view_of
build_index-misses d e name rest file c size hash pd pe lt =
    let below : compare_bytes e.path d.path ≡ Ordering.lt =
      rw (pe, pd) (below-Before name rest file c lt) in
    rw (below, lookup_loop) refl
