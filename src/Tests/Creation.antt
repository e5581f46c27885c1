-- ===== src/Tests/Creation.antt =====
-- The creation of an archive on concrete data.
use blob.Prelude.{
  ℕ, ◌≡◌, refl, arith, true, false, none, List, [], ◌∷◌, All, length, pos, negsuc, eof, ok,
}
use blob.Prelude.Bytes.{Bytes}
use blob.Entry.{uncompressed, is_regular}
use blob.Index.{lookup_view}
use blob.Reading.{FileReader}
use blob.Create.{FileInfo, Visit, Config, Written, write_data, build_index}
use blob.Create.Layout.{IsLaid, write_data-IsLaid}
use blob.Create.RoundTrip.{Reads, IsReadBack, write_data-read_all}
use blob.Create.Order.{build_index-misses}
use blob.Tests.Samples.{path_a, sample_entry, five_bytes, toy_reader, toy_sum}

abbrev info_of : ℕ → FileInfo
info_of size = record {
  mode = 420;
  size = pos size;
  mod_time = pos 7;
  identity = size;
  uid = 0;
  gid = 0;
}

abbrev visit_of : Bytes → Bytes → Visit
visit_of path content = record {
  path = path;
  walk_error = none;
  context_error = none;
  is_dir = false;
  type_bits = 0;
  lstat = ok (info_of (length content));
  dir_info = ok (info_of (length content));
  open_file = ok (record {
    before = ok (info_of (length content));
    content = record { content = content; ending = eof };
    after = ok (info_of (length content));
  });
}

abbrev plain_config : Config
plain_config = record {
  compression = uncompressed;
  strict = true;
  max_files = negsuc 0;
  skip_compression = [];
  encode = λ bytes. bytes;
  sha256 = toy_sum;
}

-- "a/c"
abbrev path_below : Bytes
path_below = b'a' ∷ b'/' ∷ b'c' ∷ []

abbrev two_visits : List Visit
two_visits = visit_of path_below (10 ∷ 11 ∷ []) ∷ visit_of path_a (12 ∷ 13 ∷ 14 ∷ []) ∷ []

abbrev two_written : Written
two_written = record {
  entries = sample_entry path_below 0 2 ∷ sample_entry path_a 2 3 ∷ [];
  bytes = five_bytes;
  total = 5;
}

two-written : write_data plain_config two_visits ≡ ok two_written
unfolding write_data is_regular
two-written = refl

write_data-IsLaid_example : IsLaid plain_config two_written
write_data-IsLaid_example = write_data-IsLaid plain_config two_visits two_written two-written

abbrev free_reader : FileReader
free_reader = record toy_reader { max_file_size = 0 }

free-Reads : Reads free_reader plain_config five_bytes
free-Reads = record {
  holds = record { size = refl; fits = omega arith; section = λ o n h. refl };
  same_hash = λ content. refl;
  hash_size = λ content. refl;
  no_limit = refl;
}

write_data-read_all_example :
    All
      (λ e. e.compression ≡ uncompressed → IsReadBack free_reader plain_config e)
      two_written.entries
write_data-read_all_example =
    write_data-read_all plain_config two_visits two_written free_reader two-written free-Reads

build_index-misses_example : lookup_view (build_index two_written.entries 5 []) path_below ≡ none
build_index-misses_example =
    build_index-misses (sample_entry path_below 0 2) (sample_entry path_a 2 3) (b'a' ∷ [])
      (b't' ∷ b'x' ∷ b't' ∷ []) (b'c' ∷ []) b'.' 5 [] refl refl (omega arith)
