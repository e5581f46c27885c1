-- ===== src/Registry/Manifest/Layers.antt =====
-- The two layers of an archive's manifest (registry/manifest.go).
use mathlib.Core.Path.{ap₂}
use blob.Prelude.{
  sym, reject_if, Error, ℕ, ◌≡◌, refl, ap, ◌∙◌, true, false, ◌⊎◌, inl, inr, Option, none, some,
  List, [], ◌∷◌, arith, length, ◌==◌, ok, Bool, >>=-eq-ok, not,
}
use blob.Prelude.Bytes.{Bytes, equal, equal_iff}
use blob.Registry.Manifest.{
  Descriptor, Manifest, BlobManifest, image_manifest, artifact, index_type, data_type, Found,
  no_layers, note_layer, scan_layers, require, annotation, created_at, created_key,
  invalid_manifest, missing_index, missing_data, parse_blob_manifest, build_manifest,
}

-- A manifest that is read has two layers, the index and the data, in one order or the other.
pub record HasLayers (m : Manifest) (b : BlobManifest) : Type 0 where
  pub kept : b.raw ≡ m
  pub index : b.index_desc.media_type ≡ index_type
  pub content : b.data_desc.media_type ≡ data_type
  pub layers :
      (m.layers ≡ b.index_desc ∷ b.data_desc ∷ []) ⊎ (m.layers ≡ b.data_desc ∷ b.index_desc ∷ [])

-- The manifest that is built for an archive is read back: its index, its data, its digest, and the time
-- that its annotations name.
pub parse-build_manifest :
    (parse_time : Bytes → Option ℕ) (now : Bytes) (config index content : Descriptor)
    (annotations : List (Bytes × Bytes)) (digest : Bytes)
    → index.media_type ≡ index_type
    → content.media_type ≡ data_type
    → let m = build_manifest now config index content annotations in
      parse_blob_manifest parse_time m digest
      ≡ ok (record {
        raw = m;
        digest = digest;
        index_desc = index;
        data_desc = content;
        created = created_at parse_time (annotation created_key m.annotations);
      })
unfolding parse_blob_manifest build_manifest equal note_layer scan_layers
parse-build_manifest parse_time now config index content annotations digest i d = rw i (rw d)

-- What two layers that have both been found are.
abbrev Pair : Descriptor → Descriptor → Descriptor → Descriptor → Type 0
Pair x y i d =
    ((x ≡ i) × (y ≡ d) ⊎ ((x ≡ d) × (y ≡ i)))
    × ((i.media_type ≡ index_type) × (d.media_type ≡ data_type))

scan_layers-Pair :
    (x y i d : Descriptor) (f : Found)
    → scan_layers (x ∷ y ∷ []) no_layers ≡ ok f
    → f.index ≡ some i
    → f.content ≡ some d
    → Pair x y i d
unfolding scan_layers note_layer
scan_layers-Pair x y i d f h p q =
    go (equal x.media_type index_type) refl (equal x.media_type data_type) refl
      (equal y.media_type index_type) refl (equal y.media_type data_type) refl
  where
    go :
        (a : Bool)
        → equal x.media_type index_type ≡ a
        → (b : Bool) → equal x.media_type data_type ≡ b
        → (s : Bool) → equal y.media_type index_type ≡ s
        → (t : Bool) → equal y.media_type data_type ≡ t
        → Pair x y i d
    go true a b c false e true g =
        ground (arith, equal_iff x.media_type index_type, equal_iff y.media_type data_type)
    go true a b c false e false g = absurd (ground arith)
    go true a b c true e t g = absurd (ground arith)
    go false a true c true e t g =
        ground (arith, equal_iff y.media_type index_type, equal_iff x.media_type data_type)
    go false a true c false e t g = absurd (ground arith)
    go false a false c s e t g = absurd (ground arith)

require-some :
    (e : Error) (o : Option Descriptor) (d : Descriptor) → require e o ≡ ok d → o ≡ some d
require-some e none d h = cc
require-some e (some x) d h = cc

two-layers :
    (layers : List Descriptor) (f : Found) (i d : Descriptor)
    → (length layers == 2) ≡ true
    → scan_layers layers no_layers ≡ ok f
    → f.index ≡ some i
    → f.content ≡ some d
    → ((i.media_type ≡ index_type) × (d.media_type ≡ data_type))
      × ((layers ≡ i ∷ d ∷ []) ⊎ (layers ≡ d ∷ i ∷ []))
two-layers [] f i d n h p q = cc
two-layers (x ∷ []) f i d n h p q = absurd (ground arith)
two-layers (x ∷ y ∷ []) f i d n h p q =
    let (order, types) = scan_layers-Pair x y i d f h p q in
    (
      types,
      elim order [
        | inl (a, b) ↦ inl (ap₂ (λ u v. u ∷ v ∷ []) a b)
        | inr (a, b) ↦ inr (ap₂ (λ u v. u ∷ v ∷ []) a b)
      ],
    )
two-layers (x ∷ y ∷ z ∷ zs) f i d n h p q = absurd (ground arith)

-- A manifest that is read is kept, and has exactly two layers: one of the index's type and one of the
-- data's, in one order or the other.
pub parse_blob_manifest-HasLayers :
    (parse_time : Bytes → Option ℕ) (m : Manifest) (digest : Bytes) (b : BlobManifest)
    → parse_blob_manifest parse_time m digest ≡ ok b
    → HasLayers m b
unfolding parse_blob_manifest
parse_blob_manifest-HasLayers parse_time m digest b h =
    let (u, a, h1) =
      >>=-eq-ok (reject_if (not (equal m.media_type image_manifest)) invalid_manifest) _ h in
    let (v, a2, h2) =
      >>=-eq-ok (reject_if (not (equal m.artifact_type artifact)) invalid_manifest) _ h1 in
    let (f, scanned, h3) = >>=-eq-ok (scan_layers m.layers no_layers) _ h2 in
    let (i, index, h4) = >>=-eq-ok (require missing_index f.index) _ h3 in
    let (d, content, h5) = >>=-eq-ok (require missing_data f.content) _ h4 in
    let (t, two, h6) = >>=-eq-ok (reject_if (not (length m.layers == 2)) invalid_manifest) _ h5 in
    let (types, layers) =
      two-layers m.layers f i d (ground arith) scanned (require-some missing_index f.index i index)
        (require-some missing_data f.content d content) in
    let raw : m ≡ b.raw = cc in
    let same_index : i ≡ b.index_desc = cc in
    let same_data : d ≡ b.data_desc = cc in
    record {
      kept = sym raw;
      index = ap (λ (x : Descriptor). x.media_type) (sym same_index) ∙ types.0;
      content = ap (λ (x : Descriptor). x.media_type) (sym same_data) ∙ types.1;
      layers = elim layers [
        | inl e ↦ inl (e ∙ ap₂ (λ x y. x ∷ y ∷ []) same_index same_data)
        | inr e ↦ inr (e ∙ ap₂ (λ x y. x ∷ y ∷ []) same_data same_index)
      ];
    }
