-- ===== src/Tests/Paths.antt =====
-- Paths, sizes and validation on concrete data.
use blob.Prelude.{◌≡◌, ◌↔◌, refl, [], ◌∷◌, arith, size_overflow, eof, ok, err, pos}
use blob.Prelude.Bytes.{Bytes}
use blob.Stream.{Reader}
use blob.Sizing.{read_all_with_limit}
use blob.Sizing.Bounds.{read_all_with_limit-refused}
use blob.Validation.{validate_all}
use blob.Validation.Bounds.{InRange, IsReadable, validate_all_iff}
use blob.FilePath.{slash, normalize_path, trim_right, trim_left, split, non_empty, join}
use blob.FilePath.Split.{IsSegment, contains}
use blob.Tests.Samples.{path_a, path_b, path_c, entry_c, five_bytes}

-- "//b//c/"
abbrev untidy : Bytes
untidy = b'/' ∷ b'/' ∷ b'b' ∷ b'/' ∷ b'/' ∷ b'c' ∷ b'/' ∷ []

untidy-normal : normalize_path untidy ≡ path_c
unfolding normalize_path trim_right trim_left split non_empty join
untidy-normal = refl

a-IsSegment : IsSegment slash path_a
unfolding contains
a-IsSegment = refl

b-IsSegment : IsSegment slash path_b
unfolding contains
b-IsSegment = refl

abbrev five_reader : Reader
five_reader = record { content = five_bytes; ending = eof }

read_all_with_limit-refused_example :
    read_all_with_limit five_reader 4 size_overflow ≡ err size_overflow
read_all_with_limit-refused_example =
    read_all_with_limit-refused five_reader 4 size_overflow (omega arith)

c-InRange : InRange entry_c
c-InRange = record { offset = omega arith; size = omega arith; original = omega arith }

validate_all_iff_example : (validate_all entry_c (pos 5) 100 ≡ ok tt) ↔ IsReadable entry_c 5 100
validate_all_iff_example = validate_all_iff entry_c 5 100 c-InRange (omega arith)
