-- ===== src/Registry/Manifest.antt =====
-- registry/manifest.go and the manifests of registry/push.go: the manifest of an archive, built and read.
-- The time that an annotation names is a parameter.
pub mod Layers
use blob.Prelude.{
  ℕ, Bool, true, false, not, Option, none, some, List, [], ◌∷◌, ◌==◌, if◌then◌else◌, length, ℤ,
  Error, external, Result, ok, err, ◌>>=◌, ◌>>◌, reject_if,
}
use blob.Prelude.Bytes.{Bytes, equal}

-- Descriptor of the image specification
pub record Descriptor : Type 0 where
  pub media_type : Bytes
  pub digest : Bytes
  pub size : ℤ

-- Manifest of the image specification
pub record Manifest : Type 0 where
  pub media_type : Bytes
  pub artifact_type : Bytes
  pub config : Descriptor
  pub layers : List Descriptor
  pub annotations : List (Bytes × Bytes)

pub record BlobManifest : Type 0 where
  pub raw : Manifest
  pub digest : Bytes
  pub index_desc : Descriptor
  pub data_desc : Descriptor
  pub created : Option ℕ

-- MediaTypeImageManifest of the image specification
abbrev pub image_manifest : Bytes
image_manifest =
    b'a' ∷ b'p' ∷ b'p' ∷ b'l' ∷ b'i' ∷ b'c' ∷ b'a' ∷ b't' ∷ b'i' ∷ b'o' ∷ b'n' ∷ b'/' ∷ b'v' ∷ b'n'
    ∷ b'd' ∷ b'.' ∷ b'o' ∷ b'c' ∷ b'i' ∷ b'.' ∷ b'i' ∷ b'm' ∷ b'a' ∷ b'g' ∷ b'e' ∷ b'.' ∷ b'm'
    ∷ b'a' ∷ b'n' ∷ b'i' ∷ b'f' ∷ b'e' ∷ b's' ∷ b't' ∷ b'.' ∷ b'v' ∷ b'1' ∷ b'+' ∷ b'j' ∷ b's'
    ∷ b'o' ∷ b'n' ∷ []

-- ArtifactType
abbrev pub artifact : Bytes
artifact =
    b'a' ∷ b'p' ∷ b'p' ∷ b'l' ∷ b'i' ∷ b'c' ∷ b'a' ∷ b't' ∷ b'i' ∷ b'o' ∷ b'n' ∷ b'/' ∷ b'v' ∷ b'n'
    ∷ b'd' ∷ b'.' ∷ b'm' ∷ b'e' ∷ b'i' ∷ b'g' ∷ b'm' ∷ b'a' ∷ b'.' ∷ b'b' ∷ b'l' ∷ b'o' ∷ b'b'
    ∷ b'.' ∷ b'v' ∷ b'1' ∷ []

-- MediaTypeIndex
abbrev pub index_type : Bytes
index_type =
    b'a' ∷ b'p' ∷ b'p' ∷ b'l' ∷ b'i' ∷ b'c' ∷ b'a' ∷ b't' ∷ b'i' ∷ b'o' ∷ b'n' ∷ b'/' ∷ b'v' ∷ b'n'
    ∷ b'd' ∷ b'.' ∷ b'm' ∷ b'e' ∷ b'i' ∷ b'g' ∷ b'm' ∷ b'a' ∷ b'.' ∷ b'b' ∷ b'l' ∷ b'o' ∷ b'b'
    ∷ b'.' ∷ b'i' ∷ b'n' ∷ b'd' ∷ b'e' ∷ b'x' ∷ b'.' ∷ b'v' ∷ b'1' ∷ b'+' ∷ b'f' ∷ b'l' ∷ b'a'
    ∷ b't' ∷ b'b' ∷ b'u' ∷ b'f' ∷ b'f' ∷ b'e' ∷ b'r' ∷ b's' ∷ []

-- MediaTypeData
abbrev pub data_type : Bytes
data_type =
    b'a' ∷ b'p' ∷ b'p' ∷ b'l' ∷ b'i' ∷ b'c' ∷ b'a' ∷ b't' ∷ b'i' ∷ b'o' ∷ b'n' ∷ b'/' ∷ b'v' ∷ b'n'
    ∷ b'd' ∷ b'.' ∷ b'm' ∷ b'e' ∷ b'i' ∷ b'g' ∷ b'm' ∷ b'a' ∷ b'.' ∷ b'b' ∷ b'l' ∷ b'o' ∷ b'b'
    ∷ b'.' ∷ b'd' ∷ b'a' ∷ b't' ∷ b'a' ∷ b'.' ∷ b'v' ∷ b'1' ∷ []

-- AnnotationCreated of the image specification
abbrev pub created_key : Bytes
created_key =
    b'o' ∷ b'r' ∷ b'g' ∷ b'.' ∷ b'o' ∷ b'p' ∷ b'e' ∷ b'n' ∷ b'c' ∷ b'o' ∷ b'n' ∷ b't' ∷ b'a' ∷ b'i'
    ∷ b'n' ∷ b'e' ∷ b'r' ∷ b's' ∷ b'.' ∷ b'i' ∷ b'm' ∷ b'a' ∷ b'g' ∷ b'e' ∷ b'.' ∷ b'c' ∷ b'r'
    ∷ b'e' ∷ b'a' ∷ b't' ∷ b'e' ∷ b'd' ∷ []

abbrev pub invalid_manifest : Error
invalid_manifest = external 50

abbrev pub missing_index : Error
missing_index = external 51

abbrev pub missing_data : Error
missing_data = external 52

-- The descriptors of the index and the data that have been found.
pub record Found : Type 0 where
  pub index : Option Descriptor
  pub content : Option Descriptor

abbrev pub no_layers : Found
no_layers = record { index = none; content = none }

-- One layer: a second index or a second data layer is an error, any other type is passed over.
abbrev pub note_index : Descriptor → Found → Option Descriptor → Result Found
note_index layer f none = ok (record f { index = some layer })
note_index layer f (some d) = err invalid_manifest

abbrev pub note_data : Descriptor → Found → Option Descriptor → Result Found
note_data layer f none = ok (record f { content = some layer })
note_data layer f (some d) = err invalid_manifest

unfoldable pub note_layer : Descriptor → Found → Result Found
note_layer layer f =
    if equal layer.media_type index_type
    then note_index layer f f.index
    else if equal layer.media_type data_type
    then note_data layer f f.content
    else ok f

unfoldable pub scan_layers : List Descriptor → Found → Result Found
unfolding note_layer
scan_layers [] f = ok f
scan_layers (layer ∷ layers) f = note_layer layer f >>= scan_layers layers

abbrev pub require : Error → Option Descriptor → Result Descriptor
require e none = err e
require e (some d) = ok d

-- The value of an annotation
unfoldable pub annotation : Bytes → List (Bytes × Bytes) → Option Bytes
annotation k [] = none
annotation k ((j, v) ∷ rest) = if equal j k then some v else annotation k rest

abbrev pub created_at : (Bytes → Option ℕ) → Option Bytes → Option ℕ
created_at parse_time none = none
created_at parse_time (some t) = parse_time t

-- parseBlobManifest
unfoldable pub parse_blob_manifest : (Bytes → Option ℕ) → Manifest → Bytes → Result BlobManifest
unfolding scan_layers annotation
parse_blob_manifest parse_time m digest = do
  reject_if (not (equal m.media_type image_manifest)) invalid_manifest
  reject_if (not (equal m.artifact_type artifact)) invalid_manifest
  f ← scan_layers m.layers no_layers
  index ← require missing_index f.index
  content ← require missing_data f.content
  reject_if (not (length m.layers == 2)) invalid_manifest
  ok (record {
    raw = m;
    digest = digest;
    index_desc = index;
    data_desc = content;
    created = created_at parse_time (annotation created_key m.annotations);
  })

-- buildManifest, with the text of the time
abbrev pub dated : Bytes → List (Bytes × Bytes) → Option Bytes → List (Bytes × Bytes)
dated now annotations none = (created_key, now) ∷ annotations
dated now annotations (some t) = annotations

unfoldable pub build_manifest :
    Bytes → Descriptor → Descriptor → Descriptor → List (Bytes × Bytes) → Manifest
unfolding annotation
build_manifest now config index content annotations = record {
  media_type = image_manifest;
  artifact_type = artifact;
  config = config;
  layers = index ∷ content ∷ [];
  annotations = dated now annotations (annotation created_key annotations);
}
