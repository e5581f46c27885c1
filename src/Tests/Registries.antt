-- ===== src/Tests/Registries.antt =====
-- The registry client and its caches on concrete data.
use blob.Prelude.{
  ltb, reject_if, external, ◌≡◌, refl, arith, true, false, inl, none, some, [], ◌∷◌, length, pos,
  ok, eof,
}
use blob.Prelude.Bytes.{Bytes, equal}
use blob.Cache.Disk.{DiskFile, no_faults, hex_encode, find_file, size_of}
use blob.Cache.Disk.Accounts.{IsCounted}
use blob.Registry.Store.{World, path_of, stat_file, index_colon}
use blob.Registry.Store.Entries.{IsCalm, first_temp}
use blob.Registry.RefCache.{
  RefCache, is_valid_digest_format, is_valid_algo_char, is_hex_char, ref_key, ref_path, ref_stem,
  get_digest, put_digest,
}
use blob.Registry.RefCache.Digests.{
  IsAnswer, Refused, get_digest-IsAnswer, get_digest-Refused, put_digest-kept,
  put_digest-get_digest,
}
use blob.Registry.Manifest.{
  Descriptor, Manifest, BlobManifest, index_type, data_type, annotation, build_manifest,
  parse_blob_manifest, scan_layers, note_layer,
}
use blob.Registry.Manifest.Layers.{HasLayers, parse-build_manifest, parse_blob_manifest-HasLayers}
use blob.Registry.Fetch.{
  OciClient, Client, Caches, resolve_digest, fetch_manifest_by_digest, evaluate_policies,
  evaluate_each, is_digest, fetch,
}
use blob.Registry.Fetch.Accepted.{IsAccepted, fetch-IsAccepted}
use blob.Registry.Pull.{
  PullConfig, try_index_cache, fetch_remote_index, read_index_data, verify_index_digest,
  fetch_index_blob,
}
use blob.Registry.Pull.Matches.{IsIndex, fetch_index_blob-IsIndex}

abbrev calm_world : World
calm_world = record {
  faults = no_faults;
  open_root = none;
  stat = λ path. none;
  unreadable = λ path. none;
  random = λ i. i ∷ [];
  now = 9;
}

calm_world-IsCalm : IsCalm calm_world
calm_world-IsCalm = record {
  faults = refl;
  open_root = refl;
  stat = λ p. refl;
  unreadable = λ p. refl;
}

-- A digest, `a:0`
abbrev small_digest : Bytes
small_digest = b'a' ∷ b':' ∷ b'0' ∷ []

-- The entries of the references `1` and `2`, whose names are 01 and 02.
abbrev good_entry : DiskFile
good_entry = record { path = b'0' ∷ b'1' ∷ []; content = small_digest; mod_time = 8 }

abbrev old_entry : DiskFile
old_entry = record { path = b'0' ∷ b'2' ∷ []; content = small_digest; mod_time = 1 }

abbrev ref_cache : RefCache
ref_cache = record {
  store = record {
    dir = b'/' ∷ [];
    shard_prefix_len = 0;
    max_bytes = 0;
    bytes = pos 6;
    files = good_entry ∷ old_entry ∷ [];
  };
  ttl = 5;
}

abbrev same_bytes : Bytes → Bytes
same_bytes xs = xs

small-valid : is_valid_digest_format small_digest ≡ true
unfolding is_valid_digest_format index_colon is_valid_algo_char is_hex_char equal
small-valid = refl

small-answer : (get_digest same_bytes calm_world ref_cache (1 ∷ [])).0 ≡ some small_digest
unfolding get_digest ref_path ref_key path_of hex_encode find_file equal stat_file
    is_valid_digest_format index_colon is_valid_algo_char is_hex_char
small-answer = refl

get_digest-IsAnswer_example :
    IsAnswer calm_world (ref_path same_bytes ref_cache (1 ∷ [])) ref_cache small_digest
get_digest-IsAnswer_example =
    get_digest-IsAnswer same_bytes calm_world ref_cache (1 ∷ []) small_digest small-answer

there-old :
    find_file (ref_path same_bytes ref_cache (2 ∷ [])) ref_cache.store.files ≡ some old_entry
unfolding ref_path ref_key path_of hex_encode find_file equal
there-old = refl

get_digest-Refused_example :
    Refused
      (ref_path same_bytes ref_cache (2 ∷ []))
      (get_digest same_bytes calm_world ref_cache (2 ∷ []))
get_digest-Refused_example =
    get_digest-Refused same_bytes calm_world ref_cache (2 ∷ []) old_entry calm_world-IsCalm
      there-old (inl (omega arith, omega arith))

there-good :
    find_file (ref_path same_bytes ref_cache (1 ∷ [])) ref_cache.store.files ≡ some good_entry
unfolding ref_path ref_key path_of hex_encode find_file equal
there-good = refl

put_digest-kept_example :
    get_digest same_bytes calm_world
      (put_digest same_bytes calm_world ref_cache (1 ∷ []) (b'b' ∷ b':' ∷ b'1' ∷ [])).1
      (1 ∷ [])
    ≡ get_digest same_bytes calm_world ref_cache (1 ∷ [])
put_digest-kept_example =
    put_digest-kept same_bytes calm_world ref_cache (1 ∷ []) (b'b' ∷ b':' ∷ b'1' ∷ []) good_entry
      refl there-good

ref-IsCounted : IsCounted ref_cache.store
unfolding size_of equal
ref-IsCounted = record { distinct = ((refl, tt), (tt, tt)); counted = refl }

absent-three : find_file (ref_path same_bytes ref_cache (3 ∷ [])) ref_cache.store.files ≡ none
unfolding ref_path ref_key path_of hex_encode find_file equal
absent-three = refl

free-three :
    find_file
      (first_temp calm_world ref_stem (ref_key same_bytes (3 ∷ [])) ref_cache.store)
      ref_cache.store.files
    ≡ none
unfolding find_file equal
free-three = refl

put_digest-get_digest_example :
    ((put_digest same_bytes calm_world ref_cache (3 ∷ []) small_digest).0 ≡ ok tt)
    × ((get_digest same_bytes calm_world
          (put_digest same_bytes calm_world ref_cache (3 ∷ []) small_digest).1
          (3 ∷ [])).0
        ≡ some small_digest)
    × IsCounted (put_digest same_bytes calm_world ref_cache (3 ∷ []) small_digest).1.store
put_digest-get_digest_example =
    put_digest-get_digest same_bytes calm_world ref_cache (3 ∷ []) small_digest calm_world-IsCalm
      small-valid (record { room = inl refl }) ref-IsCounted absent-three free-three

abbrev small_descriptor : Bytes → Descriptor
small_descriptor media_type = record {
  media_type = media_type;
  digest = small_digest;
  size = pos 3;
}

abbrev small_manifest : Manifest
small_manifest =
    build_manifest (b'n' ∷ []) (small_descriptor []) (small_descriptor index_type)
      (small_descriptor data_type) []

abbrev read_manifest : BlobManifest
read_manifest = record {
  raw = small_manifest;
  digest = small_digest;
  index_desc = small_descriptor index_type;
  data_desc = small_descriptor data_type;
  created = some 1;
}

parse-build_manifest_example :
    parse_blob_manifest (λ t. some 1) small_manifest small_digest ≡ ok read_manifest
unfolding build_manifest annotation equal
parse-build_manifest_example =
    parse-build_manifest (λ t. some 1) (b'n' ∷ []) (small_descriptor [])
      (small_descriptor index_type) (small_descriptor data_type) [] small_digest refl refl

parse-small : parse_blob_manifest (λ t. some 1) small_manifest small_digest ≡ ok read_manifest
unfolding parse_blob_manifest scan_layers note_layer build_manifest annotation equal
parse-small = refl

parse_blob_manifest-HasLayers_example : HasLayers small_manifest read_manifest
parse_blob_manifest-HasLayers_example =
    parse_blob_manifest-HasLayers (λ t. some 1) small_manifest small_digest read_manifest
      parse-small

-- A registry with the small manifest, whose bytes are `m`, and the index `i`
abbrev small_oci : OciClient
small_oci = record {
  resolve = λ ref reference. ok (small_descriptor []);
  fetch_manifest = λ ref desc. ok (small_manifest, b'm' ∷ []);
  fetch_blob = λ ref desc. ok (record { content = b'i' ∷ []; ending = eof });
}

-- Every content has the small digest. One policy, which accepts digests of three bytes.
abbrev small_client : Client
small_client = record {
  oci = small_oci;
  policies = (λ q. reject_if (ltb (length q.digest) 3) (external 99)) ∷ [];
  parse_reference = λ ref. ok ref;
  unmarshal = λ raw. ok small_manifest;
  parse_time = λ t. some 1;
  sha256 = same_bytes;
  digests = record {
    parse = λ dgst. ok (b'a' ∷ []);
    validate = λ dgst. ok tt;
    available = λ algorithm. true;
    from_bytes = λ algorithm raw. small_digest;
  };
  world = calm_world;
}

-- The cache of references holds the digest of the reference `1`.
abbrev small_caches : Caches
small_caches = record { refs = some ref_cache; manifests = none; indexes = none }

small-fetch : (fetch small_client false (1 ∷ []) small_caches).0 ≡ ok read_manifest
unfolding fetch resolve_digest fetch_manifest_by_digest evaluate_policies evaluate_each is_digest
    get_digest ref_path ref_key path_of hex_encode find_file equal stat_file is_valid_digest_format
    index_colon is_valid_algo_char is_hex_char parse_blob_manifest scan_layers note_layer
    build_manifest annotation
small-fetch = refl

fetch-IsAccepted_example : IsAccepted small_client false small_caches (1 ∷ []) read_manifest
fetch-IsAccepted_example =
    fetch-IsAccepted small_client (1 ∷ []) false small_caches read_manifest small-fetch

abbrev small_pull : PullConfig
small_pull = record { skip_cache = false; max_index_size = pos 8 }

small-index :
    (fetch_index_blob small_client
      (λ d. b'a' ∷ [])
      (1 ∷ [])
      (small_descriptor index_type)
      small_pull
      small_caches).0
    ≡ ok (b'i' ∷ [])
unfolding fetch_index_blob try_index_cache fetch_remote_index read_index_data verify_index_digest
    equal
small-index = refl

fetch_index_blob-IsIndex_example :
    IsIndex small_client (λ d. b'a' ∷ []) (small_descriptor index_type) small_pull (b'i' ∷ [])
fetch_index_blob-IsIndex_example =
    fetch_index_blob-IsIndex small_client (λ d. b'a' ∷ []) (small_descriptor index_type) small_pull
      (1 ∷ []) small_caches (b'i' ∷ []) small-index
