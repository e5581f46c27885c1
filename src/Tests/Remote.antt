-- ===== src/Tests/Remote.antt =====
-- The HTTP source on concrete data.
use blob.Prelude.{
  ℕ, ◌+◌, ◌-◌, ◌≡◌, refl, arith, Bool, true, false, ◌⊎◌, inl, inr, none, [], ◌∷◌, pos, take, drop,
  Result, ok, eof, if◌then◌else◌,
}
use blob.ByteSource.{Holds}
use blob.Http.{
  Value, Request, Response, HttpSource, if_match, range, get_header, is_empty, byte_source,
}
use blob.Http.ContentRange.{parse_content_range}
use blob.Http.Serves.{Serves, Reads, IsPart, byte_source-Holds}
use blob.Http.Sizes.{range_text, parse_content_range-decimal}
use blob.Tests.Blocks.{five_bytes}

abbrev part_response : ℕ → ℕ → Response
part_response first last = record {
  status = 206;
  content_length = pos (last + 1 - first);
  headers = [];
  body = record { content = take (last + 1 - first) (drop first five_bytes); ending = eof };
}

abbrev plain_response : ℕ → Response
plain_response status = record {
  status = status;
  content_length = pos 0;
  headers = [];
  body = record { content = []; ending = eof };
}

abbrev answer : Value → Value → Result Response
answer matched (Value.text t) = ok (plain_response 200)
answer matched (Value.byte_range first last) =
    if is_empty matched then ok (part_response first last) else ok (plain_response 412)

-- A server of five bytes that refuses every request that asks for a match.
abbrev five_server : Request → Result Response
five_server q = answer (get_header if_match q.headers) (get_header range q.headers)

abbrev five_remote : HttpSource
five_remote = record {
  url = b'u' ∷ [];
  url_error = none;
  client = five_server;
  headers = [];
  size = 5;
  etag = b'e' ∷ [];
  last_modified = [];
  source_id = b'u' ∷ [];
  use_conditional_headers = true;
}

five-Serves : Serves five_server five_bytes
five-Serves = record {
  plain = λ q first last g r order inside plain.
      (part_response first last, rw (r, plain.0), (refl, refl));
  conditional = λ q first last g r order inside.
      rw r (conditional (is_empty (get_header if_match q.headers)) first last);
}
  where
    conditional :
        (b : Bool) (first last : ℕ)
        → (r : Response) × ((if b then ok (part_response first last) else ok (plain_response 412))
            ≡ ok r)
          × (IsPart five_bytes first last r ⊎ (r.status ≡ 412))
    conditional true first last = (part_response first last, refl, inl (refl, refl))
    conditional false first last = (plain_response 412, refl, inr refl)

five-Reads : Reads five_remote five_bytes
unfolding get_header
five-Reads = record {
  size = refl;
  no_url_error = refl;
  unmatched = refl;
  unmodified = refl;
  serves = five-Serves;
}

byte_source-Holds_example : Holds (byte_source five_remote) five_bytes
byte_source-Holds_example = byte_source-Holds five_remote five_bytes five-Reads

parse_content_range-decimal_example :
    parse_content_range (range_text (b'0' ∷ b'-' ∷ b'0' ∷ []) 1234) ≡ ok 1234
parse_content_range-decimal_example =
    parse_content_range-decimal (b'0' ∷ b'-' ∷ b'0' ∷ []) 1234 (refl, (refl, (refl, tt)))
      (omega arith)
