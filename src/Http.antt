-- ===== src/Http.antt =====
-- core/http/source.go: random access to remote content by range requests. The HTTP client is a function
-- from requests to responses. Sums of offsets and lengths stay below 2^63.
pub mod ContentRange
pub mod Serves
pub mod Metadata
pub mod Sizes
use blob.Prelude.{
  ℕ, zero, suc, ◌+◌, ◌-◌, Bool, true, false, not, ◌&&◌, ◌||◌, Option, none, some, List, [], ◌∷◌,
  ◌++◌, ltb, leb, ◌==◌, if◌then◌else◌, length, take, min, ℤ, pos, negsuc, Error, external,
  negative_offset, eof, Result, ok, err, ◌>>=◌, ◌>>◌, reject_if,
}
use blob.Prelude.Bytes.{Bytes, equal}
use blob.Prelude.Copies.{copy_into}
use blob.Stream.{Reader, full_error, limit_reader}
use blob.ByteSource.{Read, ByteSource}
use blob.Http.ContentRange.{decimal, parse_content_range}

-- Header names, in canonical form
abbrev pub accept_encoding : Bytes
accept_encoding =
    b'A' ∷ b'c' ∷ b'c' ∷ b'e' ∷ b'p' ∷ b't' ∷ b'-' ∷ b'E' ∷ b'n' ∷ b'c' ∷ b'o' ∷ b'd' ∷ b'i' ∷ b'n'
    ∷ b'g' ∷ []

abbrev pub if_match : Bytes
if_match = b'I' ∷ b'f' ∷ b'-' ∷ b'M' ∷ b'a' ∷ b't' ∷ b'c' ∷ b'h' ∷ []

abbrev pub if_unmodified_since : Bytes
if_unmodified_since =
    b'I' ∷ b'f' ∷ b'-' ∷ b'U' ∷ b'n' ∷ b'm' ∷ b'o' ∷ b'd' ∷ b'i' ∷ b'f' ∷ b'i' ∷ b'e' ∷ b'd' ∷ b'-'
    ∷ b'S' ∷ b'i' ∷ b'n' ∷ b'c' ∷ b'e' ∷ []

abbrev pub range : Bytes
range = b'R' ∷ b'a' ∷ b'n' ∷ b'g' ∷ b'e' ∷ []

abbrev pub etag_key : Bytes
etag_key = b'E' ∷ b't' ∷ b'a' ∷ b'g' ∷ []

abbrev pub last_modified_key : Bytes
last_modified_key =
    b'L' ∷ b'a' ∷ b's' ∷ b't' ∷ b'-' ∷ b'M' ∷ b'o' ∷ b'd' ∷ b'i' ∷ b'f' ∷ b'i' ∷ b'e' ∷ b'd' ∷ []

abbrev pub content_range : Bytes
content_range =
    b'C' ∷ b'o' ∷ b'n' ∷ b't' ∷ b'e' ∷ b'n' ∷ b't' ∷ b'-' ∷ b'R' ∷ b'a' ∷ b'n' ∷ b'g' ∷ b'e' ∷ []

-- A value, with `bytes=first-last` as its two numbers.
pub data Value : Type 0 where
  text : Bytes → Value
  byte_range : (first last : ℕ) → Value

abbrev pub Headers : Type 0
Headers = List (Bytes × Value)

-- Header.Get: the first value, and the empty text where there is none.
unfoldable pub get_header : Bytes → Headers → Value
get_header k [] = text []
get_header k ((j, v) ∷ hs) = if equal j k then v else get_header k hs

-- Header.Set: in place of the values that are there.
unfoldable pub remove_header : Bytes → Headers → Headers
remove_header k [] = []
remove_header k ((j, v) ∷ hs) =
    let rest = remove_header k hs in if equal j k then rest else (j, v) ∷ rest

abbrev pub set_header : Bytes → Value → Headers → Headers
set_header k v hs = (k, v) ∷ remove_header k hs

abbrev pub is_empty : Value → Bool
is_empty (text []) = true
is_empty v = false

pub data Method : Type 0 where
  get head : Method

pub record Request : Type 0 where
  pub method : Method
  pub headers : Headers

pub record Response : Type 0 where
  pub status : ℕ
  pub content_length : ℤ
  pub headers : Headers
  pub body : Reader

-- Source. The client is that of the URL; `url_error` is what NewRequest says of it.
pub record HttpSource : Type 0 where
  pub url : Bytes
  pub url_error : Option Error
  pub client : Request → Result Response
  pub headers : Headers
  pub size : ℕ
  pub etag : Bytes
  pub last_modified : Bytes
  pub source_id : Bytes
  pub use_conditional_headers : Bool

-- `range requests not supported`, and `range request failed`
abbrev pub no_ranges : Error
no_ranges = external 30

abbrev pub request_failed : Error
request_failed = external 31

-- "identity"
abbrev pub identity : Bytes
identity = b'i' ∷ b'd' ∷ b'e' ∷ b'n' ∷ b't' ∷ b'i' ∷ b't' ∷ b'y' ∷ []

-- A header that is set where there is a value for it and the user has set none.
unfoldable pub set_missing : Bytes → Bytes → Headers → Headers
unfolding get_header remove_header
set_missing k [] hs = hs
set_missing k (b ∷ bs) hs =
    if is_empty (get_header k hs) then set_header k (text (b ∷ bs)) hs else hs

abbrev pub add_conditions : Bool → Bytes → Bytes → Headers → Headers
add_conditions true etag modified hs =
    set_missing if_unmodified_since modified (set_missing if_match etag hs)
add_conditions false etag modified hs = hs

abbrev pub is_get : Method → Bool
is_get get = true
is_get head = false

unfoldable pub new_request : HttpSource → Method → Bool → Result Request
unfolding set_missing
new_request s method with_conditions = elim s.url_error [
  | some e ↦ err e
  | none ↦ ok (record {
    method = method;
    headers =
        add_conditions (is_get method && with_conditions && s.use_conditional_headers) s.etag
          s.last_modified (set_missing accept_encoding identity s.headers);
  })
]

abbrev pub with_range : ℕ → ℕ → Request → Request
with_range first last q = record q { headers = set_header range (byte_range first last) q.headers }

unfoldable pub range_request : HttpSource → ℕ → ℕ → Bool → Result Response
unfolding new_request
range_request s first last with_conditions = do
  q ← new_request s get with_conditions
  s.client (with_range first last q)

abbrev pub has_conditions : Bool → Bytes → Bytes → Bool
has_conditions use_conditional_headers etag modified =
    use_conditional_headers && (not (equal etag []) || not (equal modified []))

unfoldable pub has_conditional_headers : HttpSource → Bool
has_conditional_headers s = has_conditions s.use_conditional_headers s.etag s.last_modified

-- The answer to a range request. One that fails for its conditions is made again without them.
abbrev pub retried : HttpSource → ℕ → ℕ → Response → Result Response
retried s first last r =
    if r.status == 412 && has_conditional_headers s then range_request s first last false else ok r

unfoldable pub request_part : HttpSource → ℕ → ℕ → Result Response
unfolding range_request has_conditional_headers
request_part s first last = do r ← range_request s first last true; retried s first last r

-- What a status other than 206 means.
unfoldable pub check_status : ℕ → Result (Unit {0})
check_status status =
    if status == 206
    then ok tt
    else if status == 416
    then err eof
    else if status == 200
    then err no_ranges
    else err request_failed

-- The reader of a response's body.
abbrev pub range_reader : ℕ → Response → Result Reader
range_reader n r = do check_status r.status; ok (limit_reader n r.body)

abbrev pub read_part : HttpSource → ℕ → ℕ → Result Reader
read_part s off n = do r ← request_part s off (off + n - 1); range_reader n r

-- ReadRange. Behind the end of the content the reader is an empty one beside io.EOF.
unfoldable pub read_range : HttpSource → ℤ → ℤ → Result Reader
unfolding request_part check_status
read_range s off (negsuc n) = err request_failed
read_range s off (pos zero) = ok (record { content = []; ending = eof })
read_range s (negsuc o) (pos (suc n)) = err negative_offset
read_range s (pos off) (pos (suc n)) =
    if leb s.size off
    then err eof
    else read_part s off (if ltb (s.size - off) (suc n) then s.size - off else suc n)

-- io.ReadFull into the first `expected` bytes of the buffer, and io.EOF where the buffer is larger.
abbrev pub fill : Bytes → ℕ → Reader → Read
fill p expected body =
    let got = take expected body.content in
    record {
      count = length got;
      buffer = copy_into p 0 got;
      error =
          if leb expected (length body.content)
          then (if ltb expected (length p) then some eof else none)
          else some (full_error body.content body.ending);
    }

abbrev pub nothing_read : Bytes → Error → Read
nothing_read p e = record { count = 0; buffer = p; error = some e }

abbrev pub fill_checked : Bytes → ℕ → Reader → Result (Unit {0}) → Read
fill_checked p expected body (ok u) = fill p expected body
fill_checked p expected body (err e) = nothing_read p e

abbrev pub fill_from : Bytes → ℕ → Result Response → Read
fill_from p expected (err e) = nothing_read p e
fill_from p expected (ok r) = fill_checked p expected r.body (check_status r.status)

abbrev pub fill_part : HttpSource → Bytes → ℕ → Read
fill_part s p off =
    let end = off + length p - 1 in
    if leb s.size end
    then fill_from p (s.size - 1 - off + 1) (request_part s off (s.size - 1))
    else fill_from p (length p) (request_part s off end)

-- ReadAt
unfoldable pub read_at : HttpSource → Bytes → ℤ → Read
unfolding request_part check_status
read_at s [] off = record { count = 0; buffer = []; error = none }
read_at s (b ∷ bs) (negsuc n) = nothing_read (b ∷ bs) negative_offset
read_at s (b ∷ bs) (pos off) =
    if leb s.size off then nothing_read (b ∷ bs) eof else fill_part s (b ∷ bs) off

-- The source as one that the block cache reads.
abbrev pub byte_source : HttpSource → ByteSource
byte_source s = record {
  size = s.size;
  source_id = s.source_id;
  read_at = λ p off. read_at s p (pos off);
  read_range = some (λ off n. read_range s (pos off) (pos n));
}
