-- ===== src/Create/Layout.antt =====
-- Where writeData of core/create.go puts the contents, and how they are read back.
use mathlib.Core.Path.{subst}
use blob.Prelude.{
  ℕ, zero, suc, ◌+◌, ◌-◌, ◌≤◌, ◌<◌, ◌≡◌, refl, ap, ◌∙◌, Bool, true, false, Option, none, some, List,
  [], ◌∷◌, ◌++◌, arith, if◌then◌else◌, length, length-append, take, drop, take_of_length-le, All,
  ltb, not, max_uint64, two64, add_u64, size_overflow, Result, ok, err, >>=-eq-ok, reject_if,
}
use blob.Prelude.Bytes.{Bytes}
use blob.Entry.{Entry, is_regular}
use blob.FilePath.Child.{drop-append}
use blob.Create.{
  Config, Visit, OpenFile, FileInfo, Written, encoded, make_entry, compression_for, write_entry,
  write_file, validate_file_info, check_file_unchanged, fail_on, pass_symlink, write_resolved,
  process_file, process_entry, resolve_entry_info, append_entry, write_visits, write_data,
  not_a_file,
}

-- An entry without its offset, and the bytes written for it, come from a content.
pub record Made (cfg : Config) (entry : Entry) (bytes : Bytes) : Type 0 where
  pub content : Bytes
  pub size : entry.original_size ≡ length content
  pub hash : entry.hash ≡ cfg.sha256 content
  pub data_size : entry.data_size ≡ length bytes
  pub written : bytes ≡ encoded cfg entry.compression content

abbrev MadeBy : Config → Entry × Bytes → Type 0
MadeBy cfg x = Made cfg (x.0) (x.1)

write_entry-Made :
    (cfg : Config) (path : Bytes) (info : Option FileInfo) (opened : Result OpenFile)
    {x : Entry × Bytes}
    → write_entry cfg path info opened ≡ ok x
    → MadeBy cfg x
unfolding write_entry
write_entry-Made cfg path info opened {x} h =
    let (f, p, h1) = >>=-eq-ok opened _ h in
    let (found, q, h2) = >>=-eq-ok f.before _ h1 in
    let (u, r, h3) = >>=-eq-ok (reject_if (not (is_regular found.mode)) not_a_file) _ h2 in
    let (v, s, h4) = >>=-eq-ok (validate_file_info cfg.strict info found) _ h3 in
    let (bytes, t, h5) = >>=-eq-ok (write_file f.content found.size) _ h4 in
    let (w, k, h6) = >>=-eq-ok (check_file_unchanged cfg.strict f found) _ h5 in
    let same : make_entry cfg path found (compression_for cfg path found) bytes ≡ x = cc in
    subst (MadeBy cfg) same
      (record { content = bytes; size = refl; hash = refl; data_size = refl; written = refl })

pass_symlink-some :
    (m : Result (Entry × Bytes)) {x : Entry × Bytes} → pass_symlink m ≡ ok (some x) → m ≡ ok x
pass_symlink-some (ok y) h = cc
pass_symlink-some (err e) h = ground arith

write_resolved-Made :
    (cfg : Config) (n : ℕ) (v : Visit) (info : Option (Option FileInfo)) {x : Entry × Bytes}
    → write_resolved cfg n v info ≡ ok (some x)
    → MadeBy cfg x
write_resolved-Made cfg n v none h = cc
write_resolved-Made cfg n v (some info) h =
    write_entry-Made cfg v.path info v.open_file
      (pass_symlink-some (write_entry cfg v.path info v.open_file) (ground arith))

process_entry-Made :
    (cfg : Config) (n : ℕ) (v : Visit) {x : Entry × Bytes}
    → process_entry cfg n v ≡ ok (some x)
    → MadeBy cfg x
unfolding process_entry
process_entry-Made cfg n v {x} h =
    let (u, p, h1) = >>=-eq-ok (fail_on v.walk_error) _ h in
    let (w, q, h2) = >>=-eq-ok (fail_on v.context_error) _ h1 in
    let file : process_file cfg n v ≡ ok (some x) = ground arith in
    let (info, r, h3) = >>=-eq-ok (resolve_entry_info cfg.strict v) (write_resolved cfg n v) file in
    write_resolved-Made cfg n v info h3

take-drop-append :
    (a n : ℕ) (xs ys : Bytes) → a + n ≤ length xs → take n (drop a (xs ++ ys)) ≡ take n (drop a xs)
take-drop-append (suc a) n (x ∷ xs) ys h = take-drop-append a n xs ys (omega arith)
take-drop-append (suc a) n [] ys h = absurd (omega arith)
take-drop-append zero zero xs ys h = refl
take-drop-append zero (suc n) [] ys h = absurd (omega arith)
take-drop-append zero (suc n) (x ∷ xs) ys h =
    ap (◌∷◌ x) (take-drop-append zero n xs ys (omega arith))

-- The entry's range of the bytes holds the encoding of a content of its size and its hash.
pub record StoredIn (cfg : Config) (bytes : Bytes) (entry : Entry) : Type 0 where
  pub content : Bytes
  pub size : entry.original_size ≡ length content
  pub hash : entry.hash ≡ cfg.sha256 content
  pub within : entry.data_offset + entry.data_size ≤ length bytes
  pub data_size : entry.data_size ≡ length (encoded cfg entry.compression content)
  pub stored :
      take entry.data_size (drop entry.data_offset bytes) ≡ encoded cfg entry.compression content

StoredIn-append :
    (cfg : Config) (bytes more : Bytes) (es : List Entry)
    → All (StoredIn cfg bytes) es
    → All (StoredIn cfg (bytes ++ more)) es
StoredIn-append cfg bytes more [] a = tt
StoredIn-append cfg bytes more (e ∷ es) a = (
  record {
    content = a.0.content;
    size = a.0.size;
    hash = a.0.hash;
    within = omega (arith, a.0.within, length-append bytes more);
    data_size = a.0.data_size;
    stored = take-drop-append e.data_offset e.data_size bytes more a.0.within ∙ a.0.stored;
  },
  StoredIn-append cfg bytes more es a.1,
)

All-snoc {ℓ κ} :
    {A : Type ℓ} (P : A → Type κ) (xs : List A) (x : A) → All P xs → P x → All P (xs ++ x ∷ [])
All-snoc P [] x a h = (h, tt)
All-snoc P (y ∷ xs) x a h = (a.0, All-snoc P xs x a.1 h)

-- The invariant of the walk
pub record IsLaid (cfg : Config) (w : Written) : Type 0 where
  pub total : w.total ≡ length w.bytes
  pub fits : w.total < two64
  pub stored : All (StoredIn cfg w.bytes) w.entries

append_entry-IsLaid :
    (cfg : Config) (w : Written) (o : Option (Entry × Bytes)) {next : Written}
    → IsLaid cfg w
    → ((x : Entry × Bytes) → o ≡ some x → MadeBy cfg x)
    → append_entry w o ≡ ok next
    → IsLaid cfg next
append_entry-IsLaid cfg w none v m h = subst (IsLaid cfg) (ok_eq h) v
  where
    ok_eq : {a b : Written} → ok a ≡ ok b → a ≡ b
    ok_eq p = cc
append_entry-IsLaid cfg w (some (e, bytes)) {next} v m h =
    go (ltb (max_uint64 - w.total) e.data_size) refl h
  where
    made : Made cfg e bytes
    made = m (e, bytes) refl

    after : Written
    after = record {
      entries = w.entries ++ record e { data_offset = w.total } ∷ [];
      bytes = w.bytes ++ bytes;
      total = add_u64 w.total e.data_size;
    }

    here : StoredIn cfg (w.bytes ++ bytes) (record e { data_offset = w.total })
    here = record {
      content = made.content;
      size = made.size;
      hash = made.hash;
      within = omega (arith, v.total, made.data_size, length-append w.bytes bytes);
      data_size = made.data_size ∙ ap length made.written;
      stored =
          ap (λ n. take e.data_size (drop n (w.bytes ++ bytes))) v.total
          ∙ ap (take e.data_size) (drop-append w.bytes bytes)
          ∙ take_of_length-le e.data_size bytes (omega (arith, made.data_size))
          ∙ made.written;
    }

    go :
        (b : Bool)
        → ltb (max_uint64 - w.total) e.data_size ≡ b
        → (if b then err size_overflow else ok after) ≡ ok next
        → IsLaid cfg next
    go true p q = cc
    go false p q =
        let same : after ≡ next = cc in
        subst (IsLaid cfg) same (record {
          total = ground (arith, v.total, v.fits, made.data_size, length-append w.bytes bytes);
          fits = omega arith;
          stored =
              All-snoc (StoredIn cfg (w.bytes ++ bytes)) w.entries _
                (StoredIn-append cfg w.bytes bytes w.entries v.stored) here;
        })

write_visits-IsLaid :
    (cfg : Config) (vs : List Visit) (w : Written) {final : Written}
    → IsLaid cfg w
    → write_visits cfg vs w ≡ ok final
    → IsLaid cfg final
unfolding write_visits
write_visits-IsLaid cfg [] w v h = let same : w ≡ _ = cc in subst (IsLaid cfg) same v
write_visits-IsLaid cfg (x ∷ vs) w v h =
    let (o, p, h1) = >>=-eq-ok (process_entry cfg (length w.entries) x) _ h in
    let (next, q, h2) = >>=-eq-ok (append_entry w o) _ h1 in
    write_visits-IsLaid cfg vs next
      (append_entry-IsLaid cfg w o v
        (λ y e. process_entry-Made cfg (length w.entries) x (p ∙ ap ok e)) q)
      h2

-- Whatever the walk finds: where writeData succeeds, `totalBytes` is the number of bytes written, and
-- the range of every entry lies in them and holds the content, raw or encoded as the entry says, whose
-- size and hash the entry records.
pub write_data-IsLaid :
    (cfg : Config) (visits : List Visit) (w : Written) → write_data cfg visits ≡ ok w → IsLaid cfg w
unfolding write_data
write_data-IsLaid cfg visits w h =
    write_visits-IsLaid cfg visits _ (record { total = refl; fits = omega arith; stored = tt }) h
