-- ===== src/Archive/Contents.antt =====
-- ReadFile of core/blob.go and the hash of what it returns.
use blob.Prelude.{
  ◌≡◌, refl, Bool, true, false, Option, none, some, if◌then◌else◌, hash_mismatch, Result, ok, err,
}
use blob.Prelude.Bytes.{Bytes, equal, equal_iff}
use blob.Entry.{Entry, FbEntry, entry_from_view_with_path}
use blob.FilePath.{valid_path}
use blob.Index.{Index, lookup_view}
use blob.Reading.{FileReader, read_all}
use blob.Reading.Verified.{read_all-HasContent}
use blob.Archive.{
  CacheView, CacheAction, keep, delete, store, checked_hit, fetched, read_cached, read_entry,
  read_file,
}

-- Between the two looks at the cache nobody has stored anything under the hash.
abbrev pub IsQuiet : Option CacheView → Type 0
IsQuiet none = Unit
IsQuiet (some view) = view.before ≡ none → view.inside ≡ none

-- The content that the first look at the cache finds
abbrev pub cached_content : Option CacheView → Option Bytes
cached_content none = none
cached_content (some view) = elim view.before [
  | none ↦ none
  | some r ↦ elim r [ ok content ↦ some content | err e ↦ none ]
]

abbrev pub HasHash : (Bytes → Bytes) → Bytes → Option Bytes → Type 0
HasHash sha256 hash none = Unit
HasHash sha256 hash (some content) = sha256 content ≡ hash

-- A content is returned for an entry whose hash it has, and a stored content has that hash, too. A cached
-- content with another hash is not kept; only such a one is deleted.
abbrev pub IsGood : (Bytes → Bytes) → Bytes → Option Bytes → Result Bytes × CacheAction → Type 0
IsGood sha256 hash cached (ok content, keep) = (sha256 content ≡ hash) × HasHash sha256 hash cached
IsGood sha256 hash cached (ok content, delete key) = ⊥
IsGood sha256 hash cached (ok content, store key stored) =
    (cached ≡ none) × (sha256 content ≡ hash) × (key ≡ hash) × (stored ≡ content)
IsGood sha256 hash cached (err e, keep) = HasHash sha256 hash cached
IsGood sha256 hash cached (err e, delete key) =
    (e ≡ hash_mismatch)
    × (key ≡ hash)
    × (content : Bytes) × (cached ≡ some content)
    × (equal (sha256 content) hash ≡ false)
IsGood sha256 hash cached (err e, store key stored) = ⊥

checked_hit-IsGood :
    (r : FileReader) (e : Entry) (content : Bytes)
    → IsGood r.sha256 e.hash (some content) (checked_hit r e (ok content))
checked_hit-IsGood r e content = go (equal (r.sha256 content) e.hash) refl
  where
    go :
        (b : Bool)
        → equal (r.sha256 content) e.hash ≡ b
        → IsGood r.sha256 e.hash
            (some content)
            (if b then (ok content, keep) else (err hash_mismatch, delete e.hash))
    go true h = let same = (equal_iff (r.sha256 content) e.hash).0 h in (same, same)
    go false h = (refl, refl, content, refl, h)

fetched-IsGood :
    (r : FileReader) (e : Entry) (m : Result Bytes)
    → ((content : Bytes) → m ≡ ok content → r.sha256 content ≡ e.hash)
    → IsGood r.sha256 e.hash none (fetched e m)
fetched-IsGood r e (err x) h = tt
fetched-IsGood r e (ok content) h = (refl, h content refl, refl, refl)

read-hash :
    (r : FileReader) (e : Entry) (content : Bytes)
    → read_all r e ≡ ok content
    → r.sha256 content ≡ e.hash
read-hash r e content h = (read_all-HasContent r e h).hash

plain-IsGood :
    (r : FileReader) (e : Entry) (m : Result Bytes)
    → ((content : Bytes) → m ≡ ok content → r.sha256 content ≡ e.hash)
    → IsGood r.sha256 e.hash none (m, keep)
plain-IsGood r e (ok content) h = (h content refl, tt)
plain-IsGood r e (err x) h = tt

cached-IsGood :
    (r : FileReader) (e : Entry) (before inside : Option (Result Bytes))
    → (before ≡ none → inside ≡ none)
    → IsGood r.sha256 e.hash
        (cached_content (some (record { before = before; inside = inside })))
        (read_cached r e (record { before = before; inside = inside }) before)
cached-IsGood r e (some (ok content)) inside q = checked_hit-IsGood r e content
cached-IsGood r e (some (err x)) inside q = tt
cached-IsGood r e none none q = fetched-IsGood r e (read_all r e) (read-hash r e)
cached-IsGood r e none (some x) q = absurd (clash (q refl))
  where
    clash : some x ≡ none → ⊥
    clash h = cc

-- ReadFile of a name that is in the index, where nobody stores under the entry's hash between its two
-- looks at the cache, and whatever the cache, the source and the decoder hold: a content that it returns
-- has the hash of the entry, what it stores is that content under that hash, and a cached content is
-- deleted, with a hash mismatch reported, if and only if it has another hash.
pub read_file-IsGood :
    (idx : Index) (r : FileReader) (cache : Bytes → Option CacheView) (name : Bytes)
    (view : FbEntry)
    → valid_path name ≡ true
    → lookup_view idx name ≡ some view
    → IsQuiet (cache view.hash)
    → IsGood r.sha256 view.hash (cached_content (cache view.hash)) (read_file idx r cache name)
unfolding read_file entry_from_view_with_path
read_file-IsGood idx r cache name view valid found quiet =
    rw valid (rw found (go (cache view.hash) quiet))
  where
    e : Entry
    e = entry_from_view_with_path view name

    go :
        (c : Option CacheView)
        → IsQuiet c
        → IsGood r.sha256 view.hash (cached_content c) (read_entry r e c)
    go none q = plain-IsGood r e (read_all r e) (read-hash r e)
    go (some c) q = cached-IsGood r e c.before c.inside q

-- Without that condition it does not: whatever another caller has stored under the hash in between is
-- returned unchecked.
pub read_file-unchecked :
    (idx : Index) (r : FileReader) (cache : Bytes → Option CacheView) (name content : Bytes)
    (view : FbEntry)
    → valid_path name ≡ true
    → lookup_view idx name ≡ some view
    → cache view.hash ≡ some (record { before = none; inside = some (ok content) })
    → read_file idx r cache name ≡ (ok content, keep)
unfolding read_file
read_file-unchecked idx r cache name content view valid found stored =
    rw valid (rw found (rw stored))
