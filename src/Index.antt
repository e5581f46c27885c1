-- ===== src/Index.antt =====
-- core/internal/index/index.go, with LookupByKey of core/internal/fb/Entry.go: an archive index is
-- a vector of entries, searched by path in O(log n). The FlatBuffers decoding of the bytes is a
-- parameter; `none` stands for its panic, which Load recovers.
pub mod Search
pub mod Lookup
pub mod Scan
use Prim.Native.Nat.{Ordering}
use blob.Prelude.{
  ℕ, zero, suc, ◌+◌, ◌-◌, ◌/◌, ◌≡◌, Bool, true, false, Option, none, some, List, [], ◌∷◌, ltb,
  if◌then◌else◌, length, get_elem?, drop, Error, Result, ok, err, external, All,
}
use blob.Prelude.Bytes.{Bytes, compare_bytes, at_least, has_prefix, equal, Before}
use blob.Entry.{FbEntry}

pub record Index : Type 0 where
  pub version : ℕ
  pub entries : List FbEntry
  pub data_size : ℕ
  pub data_hash : Bytes

-- `errors.New("blob: empty index data")` and `blob: failed to parse index`
abbrev pub empty_index : Error
empty_index = external 1

abbrev pub parse_failed : Error
parse_failed = external 2

abbrev pub parsed : Option Index → Result Index
parsed none = err parse_failed
parsed (some idx) = ok idx

unfoldable pub load : (Bytes → Option Index) → Bytes → Result Index
load decode [] = err empty_index
load decode (b ∷ bs) = parsed (decode (b ∷ bs))

-- DataHash: none when the index did not record it.
unfoldable pub data_hash_of : Index → Option Bytes
data_hash_of idx = elim idx.data_hash [ [] ↦ none | b ∷ bs ↦ some (b ∷ bs) ]

unfoldable pub data_size_of : Index → Option ℕ
unfolding data_hash_of
data_size_of idx = elim (data_hash_of idx) [ none ↦ none | some h ↦ some idx.data_size ]

-- The loop of LookupByKey over `span` entries from `start`. The fuel is the rounds left.
unfoldable pub lookup_loop : ℕ → List FbEntry → Bytes → ℕ → ℕ → Option FbEntry
lookup_loop zero entries key span start = none
lookup_loop (suc fuel) entries key zero start = none
lookup_loop (suc fuel) entries key (suc s) start =
    let middle = suc s / 2 in
    elim (get_elem? entries (start + middle)) [
      | none ↦ none
      | some e ↦ elim (compare_bytes e.path key) [
        | Ordering.gt ↦ lookup_loop fuel entries key middle start
        | Ordering.lt ↦ lookup_loop fuel entries key (suc s - (middle + 1)) (start + (middle + 1))
        | Ordering.eq ↦ some e
      ]
    ]

unfoldable pub lookup_view : Index → Bytes → Option FbEntry
lookup_view idx key = let n = length idx.entries in lookup_loop (n + 1) idx.entries key n 0

-- sort.Search: the least i in [0, n) at which the test holds, by bisection.
unfoldable pub search_loop : ℕ → (ℕ → Bool) → ℕ → ℕ → ℕ
search_loop zero test i j = i
search_loop (suc fuel) test i j =
    let h = (i + j) / 2 in
    elim (ltb i j) [
      | true ↦ elim (test h) [
        | true ↦ search_loop fuel test i h
        | false ↦ search_loop fuel test (h + 1) j
      ]
      | false ↦ i
    ]

unfoldable pub at_or_past : List FbEntry → Bytes → ℕ → Bool
at_or_past entries prefix i = elim (get_elem? entries i) [
  | none ↦ false
  | some e ↦ at_least e.path prefix
]

-- The entries up to the first that lacks the prefix.
unfoldable pub while_prefix : Bytes → List FbEntry → List FbEntry
while_prefix prefix [] = []
while_prefix prefix (e ∷ es) =
    let rest = while_prefix prefix es in if has_prefix e.path prefix then e ∷ rest else []

-- The sequence that EntriesWithPrefixView yields; a consumer may stop early.
unfoldable pub entries_with_prefix_view : Index → Bytes → List FbEntry
entries_with_prefix_view idx prefix =
    let n = length idx.entries in
    let start = search_loop n (at_or_past idx.entries prefix) 0 n in
    while_prefix prefix (drop start idx.entries)

-- EntriesView and Len
unfoldable pub entries_view : Index → List FbEntry
entries_view idx = idx.entries

unfoldable pub len : Index → ℕ
len idx = length idx.entries

-- Paths rise strictly along the vector: what both searches rely on.
abbrev pub IsSorted : List FbEntry → Type 0
IsSorted [] = Unit
IsSorted (e ∷ es) = All (λ f. Before e.path f.path) es × IsSorted es
