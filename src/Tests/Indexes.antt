-- ===== src/Tests/Indexes.antt =====
-- Index searches and directory listings on concrete data.
use blob.Prelude.{◌≡◌, refl, false, [], ◌∷◌, arith, drop, All}
use blob.Prelude.Bytes.{Before, compare_bytes, has_prefix}
use blob.Entry.{FbEntry}
use blob.FilePath.{slash}
use blob.FilePath.Split.{contains}
use blob.Index.{Index, IsSorted, lookup_view, entries_with_prefix_view, at_or_past, search_loop}
use blob.Index.Search.{IsBoundary, search-IsBoundary}
use blob.Index.Lookup.{find_path, lookup_view-find}
use blob.Index.Scan.{with_prefix, entries_with_prefix_complete, at_or_past_mono}
use blob.Dir.{DirIter, new_dir_iter, read_all, read_page}
use blob.Dir.Listing.{listing, Fits}
use blob.Dir.Pages.{IsPage, read_page-Cuts}
use blob.Dir.Names.{read_all-out_of_order, names}
use blob.Tests.Samples.{three_index, view_a, path_a, path_b, path_c, fb_entry}

pub three-IsSorted : IsSorted three_index.entries
unfolding compare_bytes
three-IsSorted = ((refl, (refl, tt)), ((refl, tt), (tt, tt)))

lookup_view-find_example : lookup_view three_index path_c ≡ find_path path_c three_index.entries
lookup_view-find_example = lookup_view-find three_index path_c three-IsSorted

entries_with_prefix_complete_example :
    entries_with_prefix_view three_index (b'b' ∷ b'/' ∷ [])
    ≡ with_prefix (b'b' ∷ b'/' ∷ []) three_index.entries
entries_with_prefix_complete_example =
    entries_with_prefix_complete three_index (b'b' ∷ b'/' ∷ []) three-IsSorted

search-IsBoundary_example :
    IsBoundary
      (at_or_past three_index.entries path_b)
      3
      (search_loop 3 (at_or_past three_index.entries path_b) 0 3)
search-IsBoundary_example =
    search-IsBoundary (at_or_past three_index.entries path_b) 3
      (at_or_past_mono path_b three_index.entries three-IsSorted)

abbrev three_iter : DirIter
three_iter = new_dir_iter three_index []

read_page-Cuts_example :
    IsPage 1 (listing three_iter) (read_page 1 three_iter).0
    × (listing (read_page 1 three_iter).1 ≡ drop 1 (listing three_iter))
read_page-Cuts_example = read_page-Cuts 0 three_iter

three-Fits : All Fits (with_prefix [] three_index.entries)
unfolding with_prefix has_prefix
three-Fits = (omega arith, (omega arith, (omega arith, tt)))

-- "a.txt" and "a/c"
abbrev below_a : FbEntry
below_a = fb_entry (b'a' ∷ b'/' ∷ b'c' ∷ []) 2 3

abbrev mixed_index : Index
mixed_index = record three_index { entries = view_a ∷ below_a ∷ [] }

txt_plain : contains slash (b'a' ∷ []) ≡ false
unfolding contains
txt_plain = refl

a_txt_plain : contains slash path_a ≡ false
unfolding contains
a_txt_plain = refl

read_all-out_of_order_example :
    (names (read_all (new_dir_iter mixed_index [])).0 ≡ path_a ∷ (b'a' ∷ []) ∷ [])
    × Before (b'a' ∷ []) path_a
read_all-out_of_order_example =
    read_all-out_of_order mixed_index view_a below_a b'a' b'.' [] (b't' ∷ b'x' ∷ b't' ∷ [])
      (b'c' ∷ []) refl refl refl (omega arith) txt_plain a_txt_plain (omega arith)
