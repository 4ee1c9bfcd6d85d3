-- ===== src/Layers/Blobs/Laws.antt =====
-- The layers of an image, each of which is extracted once.
use skopeo.Prelude.{
  ◌≡◌, refl, ap, inl, inr, Bool, true, false, Bool-cases, not, ◌||◌, ◌&&◌, List, [], ◌∷◌, arith,
}
use skopeo.Prelude.Texts.{Text, ◌==◌, ==-refl, eq_of_==}
use skopeo.Go.{Result}
use skopeo.External.Context.{Kinds}
use skopeo.External.Contents.{Digests}
use skopeo.External.Images.{Images}
use skopeo.Layers.Blobs.{BlobDigest, seen_in, layer_blobs}

module _ (K : Kinds) (D : Digests K) (I : Images K) (parse : Text → Result (K.Digest)) where
  -- Whether a digest is one of a list of blobs, and whether it is one of a list of digests.
  abbrev pub occurs : Text → List (BlobDigest K) → Bool
  occurs s [] = false
  occurs s (bd ∷ bds) = s == D.string bd.digest || occurs s bds

  abbrev pub listed : Text → List (K.Digest) → Bool
  listed s [] = false
  listed s (d ∷ ds) = s == D.string d || listed s ds

  -- No digest is there twice.
  abbrev pub Distinct : List (BlobDigest K) → Type 0
  Distinct [] = Unit
  Distinct (bd ∷ bds) = (occurs (D.string bd.digest) bds ≡ false) × Distinct bds

  same_seen :
      (s t : Text) (seen : List Text)
      → (s == t) ≡ true
      → seen_in K D I parse s seen ≡ seen_in K D I parse t seen
  same_seen s t seen h = ap (λ x. seen_in K D I parse x seen) (eq_of_== s t h)

  occurs-layer_blobs :
      (s : Text) (seen : List Text) (ds : List (K.Digest))
      → occurs s (layer_blobs K D I parse seen ds)
        ≡ (listed s ds && not (seen_in K D I parse s seen))
  unfolding layer_blobs seen_in
  occurs-layer_blobs s seen [] = refl
  occurs-layer_blobs s seen (d ∷ ds) = ground (
    arith,
    occurs-layer_blobs s seen ds,
    occurs-layer_blobs s (D.string d ∷ seen) ds,
    same_seen s (D.string d) seen,
  )

  layer_blobs-Distinct :
      (seen : List Text) (ds : List (K.Digest)) → Distinct (layer_blobs K D I parse seen ds)
  unfolding layer_blobs seen_in
  layer_blobs-Distinct seen [] = tt
  layer_blobs-Distinct seen (d ∷ ds) = elim (Bool-cases (seen_in K D I parse (D.string d) seen)) [
    | inl p ↦ rw p (layer_blobs-Distinct seen ds)
    | inr p ↦
        let absent : occurs (D.string d) (layer_blobs K D I parse (D.string d ∷ seen) ds) ≡ false =
          ground
            (arith, occurs-layer_blobs (D.string d) (D.string d ∷ seen) ds, ==-refl (D.string d)) in
        rw p (absent, layer_blobs-Distinct (D.string d ∷ seen) ds)
  ]

  -- The blobs that the loop over an image's layers takes are distinct, and have exactly the digests
  -- of the layers.
  pub layer_blobs_lem :
      (ds : List (K.Digest))
      → Distinct (layer_blobs K D I parse [] ds)
        × ((s : Text) → occurs s (layer_blobs K D I parse [] ds) ≡ listed s ds)
  unfolding seen_in
  layer_blobs_lem ds = (layer_blobs-Distinct [] ds, λ s. ground (arith, occurs-layer_blobs s [] ds))
