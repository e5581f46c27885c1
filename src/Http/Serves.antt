-- ===== src/Http/Serves.antt =====
-- Reads over HTTP (core/http/source.go) from a server that answers range requests.
use mathlib.Core.Path.{ap₂}
use blob.Prelude.{
  if◌then◌else◌, ℕ, zero, suc, ◌+◌, ◌-◌, ◌≤◌, ◌<◌, ◌≡◌, refl, sym, ap, ◌∙◌, Bool, true, false, ◌⊎◌,
  inl, inr, none, some, [], ◌∷◌, ◌++◌, arith, leb, ltb, ◌==◌, ◌&&◌, length, take, drop, min, pos,
  eof, Result, ok, Bool-cases, length-take, length-drop, take_of_length-le,
}
use blob.Prelude.Bytes.{Bytes, equal, equal_iff}
use blob.Prelude.Copies.{filled}
use blob.Stream.{Reader, limit_reader}
use blob.ByteSource.{direct_read, Holds}
use blob.Http.{
  if_match, if_unmodified_since, range, accept_encoding, Value, Headers, Method, Request, Response,
  HttpSource, get_header, remove_header, set_header, is_empty, set_missing, add_conditions,
  new_request, with_range, range_request, has_conditional_headers, has_conditions, retried,
  request_part, check_status, range_reader, read_part, read_range, fill, fill_from, fill_checked,
  fill_part, read_at, byte_source, identity,
}

-- The answer with the bytes from `first` to `last`.
abbrev pub IsPart : Bytes → ℕ → ℕ → Response → Type 0
IsPart content first last r =
    (r.status ≡ 206)
    × (r.body ≡ record { content = take (last + 1 - first) (drop first content); ending = eof })

-- A request without conditions.
abbrev pub IsPlain : Request → Type 0
IsPlain q =
    (get_header if_match q.headers ≡ Value.text [])
    × (get_header if_unmodified_since q.headers ≡ Value.text [])

-- The server holds `content`: a GET request for a range inside of it is answered by the range; where the
-- request has conditions, the server may refuse it for them.
pub record Serves (client : Request → Result Response) (content : Bytes) : Type 0 where
  pub plain :
      (q : Request) (first last : ℕ)
      → q.method ≡ Method.get
      → get_header range q.headers ≡ Value.byte_range first last
      → first ≤ last
      → last < length content
      → IsPlain q
      → (r : Response) × (client q ≡ ok r) × IsPart content first last r
  pub conditional :
      (q : Request) (first last : ℕ)
      → q.method ≡ Method.get
      → get_header range q.headers ≡ Value.byte_range first last
      → first ≤ last
      → last < length content
      → (r : Response) × (client q ≡ ok r) × (IsPart content first last r ⊎ (r.status ≡ 412))

-- A source of `content`: its user has set no conditions.
pub record Reads (s : HttpSource) (content : Bytes) : Type 0 where
  pub size : s.size ≡ length content
  pub no_url_error : s.url_error ≡ none
  pub unmatched : get_header if_match s.headers ≡ Value.text []
  pub unmodified : get_header if_unmodified_since s.headers ≡ Value.text []
  pub serves : Serves s.client content

some-eq : (f g : ℕ → ℕ → Result Reader) → some f ≡ some g → f ≡ g
some-eq f g e = cc

-- Headers that are set do not touch others.
get_header-remove :
    (j k : Bytes) (hs : Headers)
    → equal j k ≡ false
    → get_header k (remove_header j hs) ≡ get_header k hs
unfolding get_header remove_header
get_header-remove j k [] h = refl
get_header-remove j k ((i, v) ∷ hs) h = ground (arith, equal_iff i j, get_header-remove j k hs h)

get_header-set :
    (j k : Bytes) (v : Value) (hs : Headers)
    → equal j k ≡ false
    → get_header k (set_header j v hs) ≡ get_header k hs
unfolding get_header
get_header-set j k v hs h = rw h (get_header-remove j k hs h)

get_header-set_missing :
    (j k value : Bytes) (hs : Headers)
    → equal j k ≡ false
    → get_header k (set_missing j value hs) ≡ get_header k hs
unfolding set_missing
get_header-set_missing j k [] hs h = refl
get_header-set_missing j k (b ∷ bs) hs h = elim (Bool-cases (is_empty (get_header j hs))) [
  | inl e ↦ rw (e, set_missing) (get_header-set j k (Value.text (b ∷ bs)) hs h)
  | inr e ↦ rw (e, set_missing)
]

-- Where there is nothing to ask for, no condition is added.
add_conditions-none :
    (use_conditional_headers : Bool) (etag modified : Bytes) (hs : Headers)
    → has_conditions use_conditional_headers etag modified ≡ false
    → add_conditions (true && use_conditional_headers) etag modified hs ≡ hs
unfolding set_missing equal
add_conditions-none false etag modified hs h = refl
add_conditions-none true [] [] hs h = refl
add_conditions-none true [] (b ∷ bs) hs h = cc
add_conditions-none true (b ∷ bs) modified hs h = cc

module _ (s : HttpSource) (content : Bytes) (reads : Reads s content) where
  abbrev plain_headers : Headers
  plain_headers = set_missing accept_encoding identity s.headers

  abbrev plain_request : Request
  plain_request = record { method = Method.get; headers = plain_headers }

  new_request-plain : new_request s Method.get false ≡ ok plain_request
  unfolding new_request
  new_request-plain = rw reads.no_url_error

  with_range-IsPlain : (first last : ℕ) → IsPlain (with_range first last plain_request)
  unfolding equal
  with_range-IsPlain first last = (
    get_header-set range if_match (Value.byte_range first last) plain_headers refl
        ∙ get_header-set_missing accept_encoding if_match identity s.headers refl
        ∙ reads.unmatched,
    get_header-set range if_unmodified_since (Value.byte_range first last) plain_headers refl
        ∙ get_header-set_missing accept_encoding if_unmodified_since identity s.headers refl
        ∙ reads.unmodified,
  )

  get_header-range :
      (first last : ℕ) (q : Request)
      → get_header range (with_range first last q).headers ≡ Value.byte_range first last
  unfolding get_header equal
  get_header-range first last q = refl

  -- Part of the content, as a response.
  abbrev Answers : ℕ → ℕ → Result Response → Type 0
  Answers first last answer = (r : Response) × (answer ≡ ok r) × IsPart content first last r

  range_request-plain :
      (first last : ℕ)
      → first ≤ last
      → last < length content
      → Answers first last (range_request s first last false)
  unfolding range_request
  range_request-plain first last order inside = rw new_request-plain (
      reads.serves.plain (with_range first last plain_request) first last refl
        (get_header-range first last plain_request) order inside (with_range-IsPlain first last))

  abbrev conditions : Headers → Headers
  conditions hs = add_conditions (true && s.use_conditional_headers) s.etag s.last_modified hs

  abbrev conditional_request : Request
  conditional_request = record plain_request { headers = conditions plain_headers }

  new_request-conditional : new_request s Method.get true ≡ ok conditional_request
  unfolding new_request
  new_request-conditional = rw reads.no_url_error

  -- The first request is answered by the part, or it has conditions and is refused.
  range_request-conditional :
      (first last : ℕ)
      → first ≤ last
      → last < length content
      → (r : Response) × (range_request s first last true ≡ ok r)
        × (IsPart content first last r ⊎ ((r.status ≡ 412) × (has_conditional_headers s ≡ true)))
  unfolding range_request has_conditional_headers
  range_request-conditional first last order inside =
      rw new_request-conditional (go (has_conditional_headers s) refl)
    where
      go :
          (b : Bool)
          → has_conditional_headers s ≡ b
          → (r : Response) × (s.client (with_range first last conditional_request) ≡ ok r)
            × (IsPart content first last r
                ⊎ ((r.status ≡ 412) × (has_conditional_headers s ≡ true)))
      go true e =
          let (r, got, found) =
            reads.serves.conditional (with_range first last conditional_request) first last refl
              (get_header-range first last conditional_request) order inside in
          (r, got, elim found [ inl part ↦ inl part | inr refused ↦ inr (refused, e) ])
      go false e =
          let same : conditions plain_headers ≡ plain_headers =
            add_conditions-none s.use_conditional_headers s.etag s.last_modified plain_headers e in
          let (r, got, part) =
            reads.serves.plain (with_range first last plain_request) first last refl
              (get_header-range first last plain_request) order inside
              (with_range-IsPlain first last) in
          (
            r,
            ap (λ hs. s.client (with_range first last (record plain_request { headers = hs }))) same
                ∙ got,
            inl part,
          )

  -- With the second attempt, the part is read.
  request_part-Answers :
      (first last : ℕ)
      → first ≤ last
      → last < length content
      → Answers first last (request_part s first last)
  unfolding request_part
  request_part-Answers first last order inside =
      let (r, got, found) = range_request-conditional first last order inside in
      rw got (elim found [
        | inl part ↦
            let other : (r.status == 412) ≡ false = ground (arith, part.0) in
            (r, rw (other, retried), part)
        | inr (refused, conditional) ↦
            let again : (r.status == 412) ≡ true = ground arith in
            rw (again, conditional, retried) (range_request-plain first last order inside)
      ])

  module _ (off n : ℕ) (more : 0 < n) (inside : off + n ≤ length content) where
    abbrev part_bytes : Bytes
    part_bytes = take n (drop off content)

    abbrev part_reader : Reader
    part_reader = record { content = part_bytes; ending = eof }

    length-part : length part_bytes ≡ n
    length-part = omega (arith, length-take n (drop off content), length-drop off content)

    part-whole : take n part_bytes ≡ part_bytes
    part-whole = take_of_length-le n part_bytes (omega (arith, length-part))

    part-enough : leb n (length part_bytes) ≡ true
    part-enough = ground (arith, length-part)

    IsPart-body : (r : Response) → IsPart content off (off + n - 1) r → r.body ≡ part_reader
    IsPart-body r part =
        let width : off + n - 1 + 1 - off ≡ n = omega arith in
        part.1 ∙ ap (λ k. record { content = take k (drop off content); ending = eof }) width

    -- A response with the part, as a reader and in a buffer.
    IsPart-reader :
        (r : Response) → IsPart content off (off + n - 1) r → range_reader n r ≡ ok part_reader
    unfolding check_status
    IsPart-reader r part =
        rw (part.0, range_reader)
          (ap (λ b. ok (limit_reader n b)) (IsPart-body r part) ∙ rw (part-whole, part-enough))

    IsPart-fill :
        (p : Bytes) (r : Response)
        → n ≤ length p
        → IsPart content off (off + n - 1) r
        → fill_from p n (ok r) ≡ record {
          count = n;
          buffer = filled content off n p;
          error = if ltb n (length p) then some eof else none;
        }
    unfolding check_status
    IsPart-fill p r fits part =
        rw (part.0, fill_checked)
          (ap (fill p n) (IsPart-body r part)
            ∙ rw (part-whole, part-enough, length-part)
                (ap
                  (λ k. record {
                    count = n;
                    buffer = part_bytes ++ drop k p;
                    error = if ltb n (length p) then some eof else none;
                  })
                  (omega arith)))

    read_part-bytes : read_part s off n ≡ ok part_reader
    read_part-bytes =
        let (r, got, part) = request_part-Answers off (off + n - 1) (omega arith) (omega arith) in
        rw got (IsPart-reader r part)

    fill-bytes :
        (p : Bytes)
        → n ≤ length p
        → fill_from p n (request_part s off (off + n - 1)) ≡ record {
          count = n;
          buffer = filled content off n p;
          error = if ltb n (length p) then some eof else none;
        }
    fill-bytes p fits =
        let (r, got, part) = request_part-Answers off (off + n - 1) (omega arith) (omega arith) in
        ap (fill_from p n) got ∙ IsPart-fill p r fits part

  fill_part-direct :
      (p : Bytes) (off : ℕ)
      → 0 < length p
      → off < length content
      → fill_part s p off ≡ direct_read content p off
  fill_part-direct p off more inside = elim (Bool-cases (leb s.size (off + length p - 1))) [
    | inl e ↦
        let low : s.size ≤ off + length p - 1 = ground arith in
        let short : s.size - 1 - off + 1 ≡ count = omega (arith, low, reads.size) in
        let last : s.size - 1 ≡ off + count - 1 = omega (arith, low, reads.size) in
        rw (e, fill_part) (ap₂ (λ n end. fill_from p n (request_part s off end)) short last ∙ whole)
    | inr e ↦
        let high : off + length p - 1 < s.size = ground arith in
        let full : length p ≡ count = omega (arith, high, reads.size) in
        let last : off + length p - 1 ≡ off + count - 1 = omega (arith, high, reads.size) in
        rw (e, fill_part) (ap₂ (λ n end. fill_from p n (request_part s off end)) full last ∙ whole)
  ]
    where
      count : ℕ
      count = min (length p) (length content - off)

      whole : fill_from p count (request_part s off (off + count - 1)) ≡ direct_read content p off
      whole = fill-bytes off count (omega arith) (omega arith) p (omega arith)

  read_at-direct_read :
      (p : Bytes) (off : ℕ)
      → 0 < length p
      → off < length content
      → read_at s p (pos off) ≡ direct_read content p off
  unfolding read_at
  read_at-direct_read [] off more inside = absurd (omega arith)
  read_at-direct_read (b ∷ bs) off more inside =
      let before : leb s.size off ≡ false = ground (arith, reads.size) in
      rw before (fill_part-direct (b ∷ bs) off more inside)

  read_range-part :
      (off n : ℕ)
      → off + n ≤ length content
      → read_range s (pos off) (pos n)
        ≡ ok (record { content = take n (drop off content); ending = eof })
  unfolding read_range
  read_range-part off zero fits = refl
  read_range-part off (suc n) fits =
      let before : leb s.size off ≡ false = ground (arith, reads.size) in
      let enough : ltb (s.size - off) (suc n) ≡ false = ground (arith, reads.size) in
      rw (before, enough) (read_part-bytes off (suc n) (omega arith) fits)

  -- Where the server answers requests for ranges inside the content by the ranges, or refuses them for
  -- their conditions, and the user of the source has set no conditions, ReadAt and ReadRange of the HTTP
  -- source read the content as a direct reader of it does: count, buffer and error.
  pub byte_source-Holds : Holds (byte_source s) content
  byte_source-Holds = record {
    size = reads.size;
    reads = read_at-direct_read;
    ranges = λ r off n e fits.
        ap (λ f. f off n) (sym (some-eq (λ o k. read_range s (pos o) (pos k)) r e))
        ∙ read_range-part off n fits;
  }
