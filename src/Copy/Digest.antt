-- ===== src/Copy/Digest.antt =====
-- What one try of a copy has done when it succeeds: the digest file of `skopeo copy`.
use skopeo.Prelude.{◌↔◌, refl, ◌≡◌, true, false}
use skopeo.Prelude.Texts.{Text, is_blank}
use skopeo.Go.{ok}
use skopeo.Go.Laws.{then_ok, then_lift, or_wrap_of_ok, lift_ok, step_ok, or_wrap-eq-ok, if_ok}
use skopeo.External.Context.{Kinds, Context}
use skopeo.External.Contents.{Digests}
use skopeo.External.Libraries.{References, Host, Remote, CopyOptions}
use skopeo.Copy.{CopyCmdOptions, write_digest, copy_once}

module _ (K : Kinds) (R : References K) (H : Host K) (N : Remote K) (D : Digests K) where
  -- The digest file after a copy whose manifest is `manifest`.
  pub data DigestWritten (opts : CopyCmdOptions) (manifest : Text) (w : K.World)
      : K.World → Type 0 where
    no_file : is_blank opts.digest_file ≡ true → DigestWritten opts manifest w w
    written :
        {w' : K.World} (digest : K.Digest)
        → is_blank opts.digest_file ≡ false
        → D.digest manifest ≡ ok digest
        → H.write_file opts.digest_file (D.string digest) w ≡ (ok tt, w')
        → DigestWritten opts manifest w w'

  once-DigestWritten :
      (ctx : Context) (policy : K.PolicyContext) (opts : CopyCmdOptions)
      (dest_ref src_ref : K.ImageReference) (options : CopyOptions K) (w w' : K.World)
      → copy_once K R H N D ctx policy opts dest_ref src_ref options w ≡ (ok tt, w')
      → (manifest : Text) × (copied : K.World) × (N.copy_image ctx policy dest_ref src_ref options w
          ≡ (ok manifest, copied))
        × DigestWritten opts manifest copied w'
  unfolding copy_once write_digest
  once-DigestWritten ctx policy opts dest_ref src_ref options w w' h =
      step_ok (N.copy_image ctx policy dest_ref src_ref options w) _ h λ manifest copied copy h1. (
        manifest,
        copied,
        copy,
        if_ok (is_blank opts.digest_file) _ _ copied h1
            (λ p q. let same : w' ≡ copied = cc in rw same (no_file p))
            λ p q. lift_ok (D.digest manifest) _ copied q λ digest e writes.
              written digest p e
                (or_wrap-eq-ok _ (H.write_file opts.digest_file (D.string digest)) copied writes),
      )

  write_digest_of :
      (opts : CopyCmdOptions) (manifest : Text) (w : K.World) {w' : K.World}
      → DigestWritten opts manifest w w'
      → write_digest K R H N D opts manifest w ≡ (ok tt, w')
  unfolding write_digest
  write_digest_of opts manifest w (no_file p) = rw p refl
  write_digest_of opts manifest w (written digest p e writes) = rw p (
      then_lift (D.digest manifest) _ w e
        (or_wrap_of_ok _ (H.write_file opts.digest_file (D.string digest)) w writes))

  -- One try of a copy succeeds exactly when the copy by the library does, and then the digest of the
  -- manifest that the library returned is written to the digest file, if one was named; nothing else
  -- is done.
  pub copy_once-DigestWritten :
      (ctx : Context) (policy : K.PolicyContext) (opts : CopyCmdOptions)
      (dest_ref src_ref : K.ImageReference) (options : CopyOptions K) (w w' : K.World)
      → (copy_once K R H N D ctx policy opts dest_ref src_ref options w ≡ (ok tt, w')) ↔ (
          (manifest : Text) × (copied : K.World) × (N.copy_image ctx policy dest_ref src_ref options
              w
            ≡ (ok manifest, copied))
          × DigestWritten opts manifest copied w')
  unfolding copy_once
  copy_once-DigestWritten ctx policy opts dest_ref src_ref options w w' = (
    once-DigestWritten ctx policy opts dest_ref src_ref options w w',
    λ (manifest, copied, copies, writes).
        then_ok (N.copy_image ctx policy dest_ref src_ref options w) _ copies
          (write_digest_of opts manifest copied writes),
  )
