-- ===== src/Tests/Samples.antt =====
-- Test data: three entries in the order of their paths, the bytes that they lie in, and a toy hash.
use blob.Prelude.{
  ℕ, zero, suc, ◌+◌, true, none, [], ◌∷◌, length, slice, pos, negsuc, eof, ok, false,
}
use blob.Prelude.Bytes.{Bytes}
use blob.Entry.{Entry, FbEntry, uncompressed}
use blob.Index.{Index}
use blob.Batch.Content.{Codec, Sink}
use blob.Batch.Process.{Processor}
use blob.Reading.{Source, FileReader}
use blob.File.{Pace}

abbrev pub zeros : ℕ → Bytes
zeros zero = []
zeros (suc n) = 0 ∷ zeros n

-- 32 bytes, the first of them the length
abbrev pub toy_sum : Bytes → Bytes
toy_sum content = length content ∷ zeros 31

-- "a.txt", "b/c" and "b/d"
abbrev pub path_a : Bytes
path_a = b'a' ∷ b'.' ∷ b't' ∷ b'x' ∷ b't' ∷ []

abbrev pub path_b : Bytes
path_b = b'b' ∷ []

abbrev pub path_c : Bytes
path_c = b'b' ∷ b'/' ∷ b'c' ∷ []

abbrev pub path_d : Bytes
path_d = b'b' ∷ b'/' ∷ b'd' ∷ []

abbrev pub fb_entry : Bytes → ℕ → ℕ → FbEntry
fb_entry path offset size = record {
  path = path;
  data_offset = offset;
  data_size = size;
  original_size = size;
  hash = size ∷ zeros 31;
  mode = 420;
  uid = 0;
  gid = 0;
  mtime_ns = pos 7;
  compression = pos 0;
}

abbrev pub view_a : FbEntry
view_a = fb_entry path_a 0 2

abbrev pub view_c : FbEntry
view_c = fb_entry path_c 2 3

abbrev pub view_d : FbEntry
view_d = fb_entry path_d 5 0

abbrev pub three_index : Index
three_index = record {
  version = 1;
  entries = view_a ∷ view_c ∷ view_d ∷ [];
  data_size = 5;
  data_hash = [];
}

abbrev pub sample_entry : Bytes → ℕ → ℕ → Entry
sample_entry path offset size = record {
  path = path;
  data_offset = offset;
  data_size = size;
  original_size = size;
  hash = size ∷ zeros 31;
  mode = 420;
  uid = 0;
  gid = 0;
  mod_time = pos 7;
  compression = uncompressed;
}

abbrev pub entry_a : Entry
entry_a = sample_entry path_a 0 2

abbrev pub entry_c : Entry
entry_c = sample_entry path_c 2 3

abbrev pub five_bytes : Bytes
five_bytes = 10 ∷ 11 ∷ 12 ∷ 13 ∷ 14 ∷ []

abbrev pub five_source : Source
five_source = record {
  size = pos 5;
  section = λ o n. record { content = slice o (o + n) five_bytes; ending = eof };
  read_at = λ n o. (slice o (o + n) five_bytes, none);
  read_range = none;
}

abbrev pub toy_reader : FileReader
toy_reader = record {
  source = five_source;
  max_file_size = 100;
  get_decoder = λ r. ok r;
  sha256 = toy_sum;
}

abbrev pub toy_codec : Codec
toy_codec = record {
  sha256 = toy_sum;
  open_zstd = λ bytes. ok (record { content = bytes; ending = eof });
  pace = λ i. i;
}

-- A sink that takes one byte a write.
abbrev pub slow_sink : Sink
slow_sink = record {
  should_process = λ e. true;
  is_buffered = false;
  put_error = λ e. none;
  open_error = λ e. none;
  write = λ e bytes. (1, none);
  commit_error = λ e. none;
}

abbrev pub toy_processor : Processor
toy_processor = record {
  codec = toy_codec;
  source = record { size = pos 5; read_at = λ n o. (slice o (o + n) five_bytes, none) };
  max_file_size = 100;
  workers = negsuc 0;
  cores = 1;
  read_concurrency = pos 4;
  read_ahead = none;
}

abbrev pub steady : Pace
steady = record { grant = 8; eager = false }
