-- ===== src/ByteSource.antt =====
-- ByteSource and RangeReader of core/cache/cache.go, and what a source that holds some bytes promises:
-- the interface between the sources (core/http/source.go) and what reads from them.
use blob.Prelude.{
  ℕ, ◌+◌, ◌-◌, ◌≤◌, ◌<◌, ◌≡◌, min, Option, none, some, ltb, if◌then◌else◌, length, take, drop,
  Error, eof, Result, ok,
}
use blob.Prelude.Bytes.{Bytes}
use blob.Prelude.Copies.{filled}
use blob.Stream.{Reader}

-- What ReadAt reports: the count, the buffer, and the error.
pub record Read : Type 0 where
  pub count : ℕ
  pub buffer : Bytes
  pub error : Option Error

-- ByteSource of core/cache, with RangeReader where the source has it. ReadAt is given the buffer.
pub record ByteSource : Type 0 where
  pub size : ℕ
  pub source_id : Bytes
  pub read_at : Bytes → ℕ → Read
  pub read_range : Option (ℕ → ℕ → Result Reader)

-- What ReadAt of a source that holds `content` reports for a buffer that is not empty.
abbrev pub direct_read : Bytes → Bytes → ℕ → Read
direct_read content p off =
    let n = min (length p) (length content - off) in
    record {
      count = n;
      buffer = filled content off n p;
      error = if ltb n (length p) then some eof else none;
    }

-- A source that holds `content`: its size, its ReadAt inside the content, and the ranges that it reads.
pub record Holds (src : ByteSource) (content : Bytes) : Type 0 where
  pub size : src.size ≡ length content
  pub reads :
      (p : Bytes) (off : ℕ)
      → 0 < length p
      → off < length content
      → src.read_at p off ≡ direct_read content p off
  pub ranges :
      (r : ℕ → ℕ → Result Reader) (off n : ℕ)
      → src.read_range ≡ some r
      → off + n ≤ length content
      → r off n ≡ ok (record { content = take n (drop off content); ending = eof })
