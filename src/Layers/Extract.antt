-- ===== src/Layers/Extract.antt =====
-- What the part of `skopeo layers` that holds the image has done when it succeeds.
use skopeo.Prelude.{◌≡◌, refl, ap, List, [], ◌∷◌}
use skopeo.Prelude.Int.{ℤ, negsuc}
use skopeo.Prelude.Texts.{Text, lit}
use skopeo.Go.{Result, ok, err, Exec}
use skopeo.Go.Close.{closing_iff}
use skopeo.Go.Laws.{step_ok, lift_ok, then_ok, then_lift}
use skopeo.External.Context.{Kinds, Context}
use skopeo.External.Contents.{Digests}
use skopeo.External.Images.{Images}
use skopeo.External.Libraries.{References, Remote}
use skopeo.Options.{RetryOptions}
use skopeo.Layers.Blobs.{BlobDigest, choose_blobs}
use skopeo.Layers.{or_closing, fail_closing, copy_blob, copy_blobs, fill_destination, extract}

module _ (K : Kinds) (R : References K) (N : Remote K) (D : Digests K) (I : Images K) where
  pub or_closing-eq-ok :
      {A : Type 0} (close : Exec (K.World) (Unit {0})) (r : Result A × K.World) {a : A}
      {w' : K.World}
      → or_closing K R N D I close r ≡ (ok a, w')
      → r ≡ (ok a, w')
  unfolding or_closing fail_closing
  or_closing-eq-ok close (ok a, w) h = h
  or_closing-eq-ok close (err e, w) h = cc

  pub or_closing_of_ok :
      {A : Type 0} (close : Exec (K.World) (Unit {0})) (r : Result A × K.World) {a : A}
      {w' : K.World}
      → r ≡ (ok a, w')
      → or_closing K R N D I close r ≡ (ok a, w')
  unfolding or_closing
  or_closing_of_ok close r p = ap (or_closing K R N D I close) p

  module _ (ctx : Context) (retry_opts : RetryOptions) (raw_source : K.ImageSource)
      (cache : K.BlobInfoCache) where
    -- Each of the blobs was read from the source and put into the destination, in order.
    pub data BlobsPut (dest : K.ImageDestination)
        : List (BlobDigest K) → K.World → K.World → Type 0 where
      all_put : {w : K.World} → BlobsPut dest [] w w
      put :
          {w v u w' : K.World} {bd : BlobDigest K} {bds : List (BlobDigest K)} (r : K.Reader)
          (size : ℤ)
          → N.retry_if_necessary
              (K.Reader × ℤ)
              ctx
              retry_opts
              (I.get_blob raw_source ctx bd.digest (negsuc 0) cache)
              w
            ≡ (ok (r, size), v)
          → I.put_blob dest ctx r bd.digest size cache bd.is_config v ≡ (ok tt, u)
          → BlobsPut dest bds u w'
          → BlobsPut dest (bd ∷ bds) w w'

    copy_blobs-BlobsPut :
        (dest : K.ImageDestination) (bds : List (BlobDigest K)) (w w' : K.World)
        → copy_blobs K R N D I ctx retry_opts raw_source dest cache bds w ≡ (ok tt, w')
        → BlobsPut dest bds w w'
    unfolding copy_blobs copy_blob
    copy_blobs-BlobsPut dest [] w w' h = let same : w' ≡ w = cc in rw same all_put
    copy_blobs-BlobsPut dest (bd ∷ bds) w w' h =
        step_ok (copy_blob K R N D I ctx retry_opts raw_source dest cache bd w) _ h
          λ done u copied h'.
            step_ok
              (N.retry_if_necessary (K.Reader × ℤ) ctx retry_opts
                (I.get_blob raw_source ctx bd.digest (negsuc 0) cache) w)
              _ copied
              λ found v gets puts.
                put found.0 found.1 gets
                  (or_closing-eq-ok (I.close_reader found.0)
                    (I.put_blob dest ctx found.0 bd.digest found.1 cache bd.is_config v) puts)
                  (copy_blobs-BlobsPut dest bds u w' h')

    copy_blobs_of_BlobsPut :
        (dest : K.ImageDestination) (bds : List (BlobDigest K)) (w w' : K.World)
        → BlobsPut dest bds w w'
        → copy_blobs K R N D I ctx retry_opts raw_source dest cache bds w ≡ (ok tt, w')
    unfolding copy_blobs copy_blob
    copy_blobs_of_BlobsPut dest [] w w' all_put = refl
    copy_blobs_of_BlobsPut dest (bd ∷ bds) w w' (put {v} {u} r size gets puts rest) =
        then_ok (copy_blob K R N D I ctx retry_opts raw_source dest cache bd w) _
          (then_ok
            (N.retry_if_necessary (K.Reader × ℤ) ctx retry_opts
              (I.get_blob raw_source ctx bd.digest (negsuc 0) cache) w)
            _ gets
            (or_closing_of_ok (I.close_reader r)
              (I.put_blob dest ctx r bd.digest size cache bd.is_config v) puts))
          (copy_blobs_of_BlobsPut dest bds u w' rest)

    -- The stages that hold the image, up to the close of the destination.
    pub record Extracted (names : List Text) (src : K.Image) (w w' : K.World) : Type 0 where
      pub bds : List (BlobDigest K)
      pub tmp_dir : Text
      pub tmp_dir_ref : K.ImageReference
      pub dest : K.ImageDestination
      pub manifest : Text
      pub made : K.World
      pub opened : K.World
      pub filled : K.World
      pub read : K.World
      pub described : K.World
      pub committed : K.World
      pub chooses : choose_blobs K D I R.parse_digest names src ≡ ok bds
      pub makes : I.temp_dir (lit ".") (lit "layers-") w ≡ (ok tmp_dir, made)
      pub refers : I.new_directory_reference tmp_dir ≡ ok tmp_dir_ref
      pub opens : I.new_image_destination tmp_dir_ref ctx made ≡ (ok dest, opened)
      pub fills : BlobsPut dest bds opened filled
      pub reads :
          N.retry_if_necessary Text ctx retry_opts (I.manifest src ctx) filled ≡ (ok manifest, read)
      pub describes : I.put_manifest dest ctx manifest read ≡ (ok tt, described)
      pub commits : I.commit dest ctx raw_source described ≡ (ok tt, committed)
      pub closes : (I.close_destination dest committed).1 ≡ w'

    pub extract-Extracted :
        (names : List Text) (src : K.Image) (w w' : K.World)
        → extract K R N D I ctx retry_opts raw_source cache names src w ≡ (ok tt, w')
        → Extracted names src w w'
    unfolding extract fill_destination
    extract-Extracted names src w w' h =
        lift_ok (choose_blobs K D I R.parse_digest names src) _ w h λ bds chooses h1.
          step_ok (I.temp_dir (lit ".") (lit "layers-") w) _ h1 λ tmp_dir made makes h2.
            lift_ok (I.new_directory_reference tmp_dir) _ made h2 λ tmp_dir_ref refers h3.
              step_ok (I.new_image_destination tmp_dir_ref ctx made) _ h3 λ dest opened opens h4.
                let (committed, whole, closes) =
                  (closing_iff (I.close_destination dest) _ _ opened w').0 h4 in
                step_ok (copy_blobs K R N D I ctx retry_opts raw_source dest cache bds opened) _
                  whole
                  λ done filled fills h5.
                    step_ok (N.retry_if_necessary Text ctx retry_opts (I.manifest src ctx) filled) _
                      h5
                      λ manifest read reads h6.
                        step_ok (I.put_manifest dest ctx manifest read) _ h6
                          λ done' described describes commits. record {
                            bds = bds;
                            tmp_dir = tmp_dir;
                            tmp_dir_ref = tmp_dir_ref;
                            dest = dest;
                            manifest = manifest;
                            made = made;
                            opened = opened;
                            filled = filled;
                            read = read;
                            described = described;
                            committed = committed;
                            chooses = chooses;
                            makes = makes;
                            refers = refers;
                            opens = opens;
                            fills = copy_blobs-BlobsPut dest bds opened filled fills;
                            reads = reads;
                            describes = describes;
                            commits = commits;
                            closes = closes;
                          }

    pub extract_of_Extracted :
        (names : List Text) (src : K.Image) (w w' : K.World)
        → Extracted names src w w'
        → extract K R N D I ctx retry_opts raw_source cache names src w ≡ (ok tt, w')
    unfolding extract fill_destination
    extract_of_Extracted names src w w' x =
        then_lift (choose_blobs K D I R.parse_digest names src) _ w x.chooses (
          then_ok (I.temp_dir (lit ".") (lit "layers-") w) _ x.makes (
            then_lift (I.new_directory_reference x.tmp_dir) _ x.made x.refers (
              then_ok (I.new_image_destination x.tmp_dir_ref ctx x.made) _ x.opens (
                (closing_iff (I.close_destination x.dest) _ _ x.opened w').1 (
                  x.committed,
                  then_ok
                      (copy_blobs K R N D I ctx retry_opts raw_source x.dest cache x.bds x.opened) _
                      (copy_blobs_of_BlobsPut x.dest x.bds x.opened x.filled x.fills)
                      (then_ok
                        (N.retry_if_necessary Text ctx retry_opts (I.manifest src ctx) x.filled) _
                        x.reads
                        (then_ok (I.put_manifest x.dest ctx x.manifest x.read) _ x.describes
                          x.commits)),
                  x.closes,
                )))))
