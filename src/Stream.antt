-- ===== src/Stream.antt =====
-- Byte streams: `io.Reader` of the standard library, and the helper of core/internal/file/hasher.go
-- that looks for data past an expected end.
use blob.Prelude.{
  ℕ, [], ◌∷◌, if◌then◌else◌, leb, length, take, drop, Error, size_overflow, eof, unexpected_eof,
  Result, ok, err,
}
use blob.Prelude.Bytes.{Bytes}

-- The bytes that a reader delivers, and the error that the read behind the last of them returns
-- (io.EOF at the end of the data).
pub record Reader : Type 0 where
  pub content : Bytes
  pub ending : Error

-- What is left of a reader behind `n` bytes.
abbrev pub skip : ℕ → Reader → Reader
skip n r = record r { content = drop n r.content }

-- The end of a stream that should end here: io.EOF is what is expected.
abbrev pub expect_end : Error → Result (Unit {0})
expect_end eof = ok tt
expect_end e = err e

-- EnsureNoExtra: a byte more is an error.
abbrev pub no_extra : Bytes → Error → Result (Unit {0})
no_extra [] e = expect_end e
no_extra (b ∷ bs) e = err size_overflow

unfoldable pub ensure_no_extra : Reader → Result (Unit {0})
ensure_no_extra r = no_extra r.content r.ending

-- io.ReadFull at the end of the data: io.EOF before the first byte, io.ErrUnexpectedEOF behind it.
abbrev pub full_error : Bytes → Error → Error
full_error (b ∷ bs) eof = unexpected_eof
full_error bs e = e

-- io.ReadFull into a buffer of `n` bytes.
unfoldable pub read_full : Reader → ℕ → Result Bytes
read_full r n =
    if leb n (length r.content) then ok (take n r.content) else err (full_error r.content r.ending)

-- io.LimitReader
abbrev pub limit_reader : ℕ → Reader → Reader
limit_reader n r = record {
  content = take n r.content;
  ending = if leb n (length r.content) then eof else r.ending;
}

-- io.ReadAll
abbrev pub read_to_end : Reader → Result Bytes
read_to_end r = elim r.ending [ eof ↦ ok r.content | e ↦ err e ]
