-- ===== src/Create/RoundTrip.antt =====
-- What Create (core/create.go) writes, read back by ReadAll (core/internal/file/reader.go).
use blob.Prelude.{◌≡◌, sym, ap, ◌∙◌, List, [], ◌∷◌, arith, length, take, drop, All, ok}
use blob.Prelude.Bytes.{Bytes}
use blob.Entry.{
  Entry, Compression, uncompressed, zstd, other, compression_from_fb, entry_from_flat_buffers,
}
use blob.Validation.{sha256_size}
use blob.Validation.Bounds.{InRange, IsReadable}
use blob.Reading.{FileReader, read_all}
use blob.Reading.Verified.{Holds, data_of, read_all-raw}
use blob.Create.{Config, Visit, Written, encoded, write_data, view_of, compression_code}
use blob.Create.Layout.{StoredIn, write_data-IsLaid}

-- A reader over the bytes, with the hash that the archive was made with and no limit on the sizes.
pub record Reads (r : FileReader) (cfg : Config) (bytes : Bytes) : Type 0 where
  pub holds : Holds r.source bytes
  pub same_hash : (content : Bytes) → r.sha256 content ≡ cfg.sha256 content
  pub hash_size : (content : Bytes) → length (cfg.sha256 content) ≡ sha256_size
  pub no_limit : r.max_file_size ≡ 0

-- The entry is read back as the content that it was made of.
pub record IsReadBack (r : FileReader) (cfg : Config) (e : Entry) : Type 0 where
  pub content : Bytes
  pub size : e.original_size ≡ length content
  pub hash : e.hash ≡ cfg.sha256 content
  pub reads : read_all r e ≡ ok content

stored-IsReadBack :
    (cfg : Config) (r : FileReader) (bytes : Bytes) (e : Entry)
    → Reads r cfg bytes
    → e.compression ≡ uncompressed
    → StoredIn cfg bytes e
    → IsReadBack r cfg e
stored-IsReadBack cfg r bytes e reading raw s = record {
  content = s.content;
  size = s.size;
  hash = s.hash;
  reads =
      read_all-raw r e bytes reading.holds ranges readable raw
        (ap r.sha256 range ∙ reading.same_hash s.content ∙ sym s.hash)
      ∙ ap ok range;
}
  where
    plain : encoded cfg e.compression s.content ≡ s.content
    plain = ap (λ k. encoded cfg k s.content) raw

    sizes : e.data_size ≡ e.original_size
    sizes = s.data_size ∙ ap length plain ∙ sym s.size

    range : data_of e bytes ≡ s.content
    range = ap (λ n. take n (drop e.data_offset bytes)) (omega arith) ∙ s.stored ∙ plain

    ranges : InRange e
    ranges = record {
      offset = omega (arith, s.within, reading.holds.fits);
      size = omega (arith, s.within, reading.holds.fits);
      original = omega (arith, s.within, reading.holds.fits, sizes);
    }

    readable : IsReadable e (length bytes) r.max_file_size
    readable = record {
      within = s.within;
      data_limit = λ h. absurd (omega (arith, reading.no_limit));
      original_limit = λ h. absurd (omega (arith, reading.no_limit));
      hash_length = ap length s.hash ∙ reading.hash_size s.content;
      raw_size = λ h. sizes;
    }

all-IsReadBack :
    (cfg : Config) (r : FileReader) (bytes : Bytes) (es : List Entry)
    → Reads r cfg bytes
    → All (StoredIn cfg bytes) es
    → All (λ e. e.compression ≡ uncompressed → IsReadBack r cfg e) es
all-IsReadBack cfg r bytes [] reading a = tt
all-IsReadBack cfg r bytes (e ∷ es) reading a = (
  λ raw. stored-IsReadBack cfg r bytes e reading raw a.0,
  all-IsReadBack cfg r bytes es reading a.1,
)

-- Where writeData succeeds and its bytes are fewer than 2^63: a reader over a source that holds them,
-- with the same hash (of 32 bytes) and no size limit, returns for every uncompressed entry the content
-- whose size and hash the entry records.
pub write_data-read_all :
    (cfg : Config) (visits : List Visit) (w : Written) (r : FileReader)
    → write_data cfg visits ≡ ok w
    → Reads r cfg w.bytes
    → All (λ e. e.compression ≡ uncompressed → IsReadBack r cfg e) w.entries
write_data-read_all cfg visits w r h reading =
    all-IsReadBack cfg r w.bytes w.entries reading (write_data-IsLaid cfg visits w h).stored

-- An algorithm that has a name
abbrev pub IsNamed : Compression → Type 0
IsNamed uncompressed = Unit
IsNamed zstd = Unit
IsNamed (other v) = ⊥

code-compression : (c : Compression) → IsNamed c → compression_from_fb (compression_code c) ≡ c
unfolding compression_from_fb
code-compression uncompressed h = ground arith
code-compression zstd h = ground arith
code-compression (other v) h = absurd h

-- An entry whose compression has a name is read back from its index table unchanged.
pub entry_from_flat_buffers-view_of :
    (e : Entry) → IsNamed e.compression → entry_from_flat_buffers (view_of e) ≡ e
unfolding entry_from_flat_buffers view_of
entry_from_flat_buffers-view_of e h =
    ap (λ c. record e { compression = c }) (code-compression e.compression h)
