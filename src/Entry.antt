-- ===== src/Entry.antt =====
-- core/internal/blobtype: entries of an archive, their compression, and the view of a decoded
-- index table. The decoding of the FlatBuffers bytes is a library's; `FbEntry` holds its fields.
use Prim.Native.Nat.{bit_and}
use blob.Prelude.{ℕ, Bool, leb, ◌==◌, if◌then◌else◌, not, ℤ, pos, negsuc}
use blob.Prelude.Bytes.{Bytes}

-- A uint8 in the source; `other` is a value that names no algorithm.
pub data Compression : Type 0 where
  uncompressed zstd : Compression
  other : ℕ → Compression

pub record Entry : Type 0 where
  pub path : Bytes
  pub data_offset : ℕ
  pub data_size : ℕ
  pub original_size : ℕ
  pub hash : Bytes
  pub mode : ℕ
  pub uid : ℕ
  pub gid : ℕ
  pub mod_time : ℤ
  pub compression : Compression

-- The fields of an index table, with the compression as the int8 that stands there.
pub record FbEntry : Type 0 where
  pub path : Bytes
  pub data_offset : ℕ
  pub data_size : ℕ
  pub original_size : ℕ
  pub hash : Bytes
  pub mode : ℕ
  pub uid : ℕ
  pub gid : ℕ
  pub mtime_ns : ℤ
  pub compression : ℤ

abbrev pub compression_of : ℕ → Compression
compression_of v = if v == 0 then uncompressed else if v == 1 then zstd else other v

-- A value outside 0..1 reads as no compression.
unfoldable pub compression_from_fb : ℤ → Compression
compression_from_fb (pos v) = if leb v 1 then compression_of v else uncompressed
compression_from_fb (negsuc n) = uncompressed

-- The view's fields, under another path.
unfoldable pub entry_from_view_with_path : FbEntry → Bytes → Entry
unfolding compression_from_fb
entry_from_view_with_path view path = record {
  path = path;
  data_offset = view.data_offset;
  data_size = view.data_size;
  original_size = view.original_size;
  hash = view.hash;
  mode = view.mode;
  uid = view.uid;
  gid = view.gid;
  mod_time = view.mtime_ns;
  compression = compression_from_fb view.compression;
}

unfoldable pub entry_from_flat_buffers : FbEntry → Entry
unfolding entry_from_view_with_path
entry_from_flat_buffers view = entry_from_view_with_path view view.path

-- fs.FileMode: IsRegular and IsDir test the type bits.
unfoldable pub is_regular : ℕ → Bool
is_regular mode = bit_and mode 0x8f280000 == 0

unfoldable pub is_dir_mode : ℕ → Bool
is_dir_mode mode = not (bit_and mode 0x80000000 == 0)
