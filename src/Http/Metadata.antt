-- ===== src/Http/Metadata.antt =====
-- NewSource of core/http/source.go: the size and the identity of the remote content, from a HEAD request
-- and a probe of one byte.
use blob.Prelude.{
  ℕ, Bool, false, [], ◌∷◌, ◌++◌, ltb, ◌==◌, not, ◌&&◌, if◌then◌else◌, ℤ, pos, negsuc, Error,
  external, Result, ok, err, ◌>>=◌, ◌>>◌, reject_if,
}
use blob.Prelude.Bytes.{Bytes}
use blob.Http.ContentRange.{decimal, parse_content_range}
use blob.Http.{
  etag_key, last_modified_key, content_range, Value, Method, Response, HttpSource, get_header,
  new_request, with_range, no_ranges, request_failed,
}

pub record Metadata : Type 0 where
  pub size : ℕ
  pub etag : Bytes
  pub last_modified : Bytes

-- The text of a value.
unfoldable pub text_of : Value → Bytes
unfolding decimal
text_of (Value.text t) = t
text_of (Value.byte_range first last) =
    (b'b' ∷ b'y' ∷ b't' ∷ b'e' ∷ b's' ∷ b'=' ∷ []) ++ (decimal first ++ (b'-' ∷ decimal last))

abbrev pub header_text : Bytes → Response → Bytes
header_text k r = text_of (get_header k r.headers)

abbrev pub missing_range : Error
missing_range = external 33

abbrev pub size_mismatch : Error
size_mismatch = external 34

-- The probe is answered by status 206.
abbrev pub check_probe : ℕ → Result (Unit {0})
check_probe status =
    if not (status == 206)
    then (if status == 200 then err no_ranges else err request_failed)
    else ok tt

abbrev pub probed_size : Bytes → Result ℕ
probed_size [] = err missing_range
probed_size (b ∷ bs) = parse_content_range (b ∷ bs)

unfoldable pub range_probe : HttpSource → Result Metadata
unfolding text_of
range_probe s = do
  q ← new_request s Method.get false
  r ← s.client (with_range 0 0 q)
  check_probe r.status
  size ← probed_size (header_text content_range r)
  ok (record {
    size = size;
    etag = header_text etag_key r;
    last_modified = header_text last_modified_key r;
  })

unfoldable pub do_head : HttpSource → Result Response
do_head s = do q ← new_request s Method.head false; s.client q

-- A HEAD request that fails is passed over.
abbrev pub head_size : Result Response → ℤ
head_size (err e) = negsuc 0
head_size (ok r) = r.content_length

abbrev pub head_text : Bytes → Result Response → Bytes
head_text k (err e) = []
head_text k (ok r) = header_text k r

-- `size > 0 && size != rangeSize`
abbrev pub disagrees : ℤ → ℕ → Bool
disagrees (pos n) m = ltb 0 n && not (n == m)
disagrees (negsuc n) m = false

abbrev pub or_text : Bytes → Bytes → Bytes
or_text [] other = other
or_text (b ∷ bs) other = b ∷ bs

unfoldable pub fetch_metadata : HttpSource → Result Metadata
unfolding range_probe do_head
fetch_metadata s =
    let head = do_head s in
    do
      probe ← range_probe s
      reject_if (disagrees (head_size head) probe.size) size_mismatch
      ok (record {
        size = probe.size;
        etag = or_text (head_text etag_key head) probe.etag;
        last_modified = or_text (head_text last_modified_key head) probe.last_modified;
      })

-- "url:", "|etag:", "|mod:", "|size:"
abbrev pub url_label : Bytes
url_label = b'u' ∷ b'r' ∷ b'l' ∷ b':' ∷ []

abbrev pub etag_label : Bytes
etag_label = b'|' ∷ b'e' ∷ b't' ∷ b'a' ∷ b'g' ∷ b':' ∷ []

abbrev pub mod_label : Bytes
mod_label = b'|' ∷ b'm' ∷ b'o' ∷ b'd' ∷ b':' ∷ []

abbrev pub size_label : Bytes
size_label = b'|' ∷ b's' ∷ b'i' ∷ b'z' ∷ b'e' ∷ b':' ∷ []

abbrev pub id_behind : HttpSource → Bytes → Bytes → Bytes
id_behind s (b ∷ bs) modified = etag_label ++ (b ∷ bs)
id_behind s [] (b ∷ bs) = mod_label ++ ((b ∷ bs) ++ (size_label ++ decimal s.size))
id_behind s [] [] = size_label ++ decimal s.size

unfoldable pub default_source_id : HttpSource → Bytes
default_source_id s = url_label ++ (s.url ++ id_behind s s.etag s.last_modified)

abbrev pub identified : HttpSource → HttpSource
identified s = record s { source_id = or_text s.source_id (default_source_id s) }

-- NewSource, of what the options have set.
unfoldable pub new_source : HttpSource → Result HttpSource
unfolding fetch_metadata default_source_id
new_source s = do
  found ← fetch_metadata s
  ok (
      identified
        (record s { size = found.size; etag = found.etag; last_modified = found.last_modified }))
