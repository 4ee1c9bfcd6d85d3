-- ===== src/Signing/Verified.antt =====
-- What the standalone verification has done when it succeeds.
use skopeo.Prelude.{◌≡◌, ◌↔◌, refl, sym, ◌∙◌, ap, [], ◌∷◌, ◌++◌}
use skopeo.Prelude.Texts.{Text, lit}
use skopeo.Go.{Result, ok, errorf_of, or_wrap}
use skopeo.Go.Laws.{step_ok, then_ok, or_wrap-eq-ok, or_wrap_of_ok}
use skopeo.External.Context.{Kinds}
use skopeo.External.Contents.{Digests}
use skopeo.External.Libraries.{Host}
use skopeo.External.Signatures.{Signatures}
use skopeo.Signing.{print, verify_with, standalone_verify}
use skopeo.Signing.Laws.{closing_mechanism-eq-ok, closing_mechanism_of_ok}

module _ (K : Kinds) (H : Host K) (S : Signatures K) where
  module _ (D : Digests K) where
    -- What a verification of the signature in one file on the manifest in another does.
    pub record Verified (manifest_path reference fingerprint signature_path : Text) (w w' : K.World)
        : Type 0 where
      pub manifest : Text
      pub signature : Text
      pub mech : K.Mechanism
      pub digest : K.Digest
      pub read : K.World
      pub read_both : K.World
      pub initialized : K.World
      pub verified : K.World
      pub reads_manifest : H.read_file manifest_path w ≡ (ok manifest, read)
      pub reads_signature : H.read_file signature_path read ≡ (ok signature, read_both)
      pub initializes : S.new_gpg_signing_mechanism read_both ≡ (ok mech, initialized)
      pub verifies :
          S.verify_docker_manifest_signature signature manifest reference mech fingerprint
            initialized
          ≡ (ok digest, verified)
      pub closes :
          S.close_mechanism mech
            (H.write_stdout
              (lit "Signature verified, digest " ++ D.string digest ++ b'\n' ∷ [])
              verified).1
          ≡ w'

    verify-Verified :
        (manifest_path reference fingerprint signature_path : Text) (w w' : K.World)
        → standalone_verify K H S D
            (manifest_path ∷ reference ∷ fingerprint ∷ signature_path ∷ [])
            w
          ≡ (ok tt, w')
        → Verified manifest_path reference fingerprint signature_path w w'
    unfolding standalone_verify verify_with print
    verify-Verified manifest_path reference fingerprint signature_path w w' h =
        step_ok
          (or_wrap (errorf_of "Error reading manifest from %s: %v" (manifest_path ∷ []))
            (H.read_file manifest_path) w)
          _ h
          λ manifest read reads h1.
            step_ok
              (or_wrap (errorf_of "Error reading signature from %s: %v" (signature_path ∷ []))
                (H.read_file signature_path) read)
              _ h1
              λ signature read_both reads' h2.
                step_ok
                  (or_wrap (errorf_of "Error initializing GPG: %v" []) S.new_gpg_signing_mechanism
                    read_both)
                  _ h2
                  λ mech initialized initializes h3.
                    let (printed, whole, closes) =
                      closing_mechanism-eq-ok K H S mech _ initialized w' h3 in
                    step_ok
                      (or_wrap (errorf_of "Error verifying signature: %v" [])
                        (S.verify_docker_manifest_signature signature manifest reference mech
                          fingerprint)
                        initialized)
                      _ whole
                      λ digest verified verifies prints.
                        let same : printed
                            ≡ (H.write_stdout
                                (lit "Signature verified, digest " ++ D.string digest ++ b'\n' ∷ [])
                                verified).1 =
                          ap (λ (r : Result (Unit {0}) × K.World). r.1) (sym prints) in
                        record {
                          manifest = manifest;
                          signature = signature;
                          mech = mech;
                          digest = digest;
                          read = read;
                          read_both = read_both;
                          initialized = initialized;
                          verified = verified;
                          reads_manifest = or_wrap-eq-ok _ (H.read_file manifest_path) w reads;
                          reads_signature =
                              or_wrap-eq-ok _ (H.read_file signature_path) read reads';
                          initializes =
                              or_wrap-eq-ok _ S.new_gpg_signing_mechanism read_both initializes;
                          verifies =
                              or_wrap-eq-ok _
                                (S.verify_docker_manifest_signature signature manifest reference
                                  mech fingerprint)
                                initialized verifies;
                          closes = ap (S.close_mechanism mech) (sym same) ∙ closes;
                        }

    Verified-verify :
        (manifest_path reference fingerprint signature_path : Text) (w w' : K.World)
        → Verified manifest_path reference fingerprint signature_path w w'
        → standalone_verify K H S D
            (manifest_path ∷ reference ∷ fingerprint ∷ signature_path ∷ [])
            w
          ≡ (ok tt, w')
    unfolding standalone_verify verify_with print
    Verified-verify manifest_path reference fingerprint signature_path w w' v =
        then_ok _ _ (or_wrap_of_ok _ (H.read_file manifest_path) w v.reads_manifest) (
          then_ok _ _ (or_wrap_of_ok _ (H.read_file signature_path) v.read v.reads_signature) (
            then_ok _ _ (or_wrap_of_ok _ S.new_gpg_signing_mechanism v.read_both v.initializes) (
              closing_mechanism_of_ok K H S v.mech _ v.initialized
                (then_ok _ _
                  (or_wrap_of_ok _
                    (S.verify_docker_manifest_signature v.signature v.manifest reference v.mech
                      fingerprint)
                    v.initialized v.verifies)
                  refl)
                v.closes)))

    -- A run of `skopeo standalone-verify` on four arguments succeeds exactly when it reads both
    -- files, the library accepts the signature that it read as one on the manifest that it read, with
    -- the reference and the fingerprint of the arguments, it prints the digest that the signature is
    -- about, and it closes the mechanism at the end.
    pub standalone_verify-Verified :
        (manifest_path reference fingerprint signature_path : Text) (w w' : K.World)
        → (standalone_verify K H S D
              (manifest_path ∷ reference ∷ fingerprint ∷ signature_path ∷ [])
              w
            ≡ (ok tt, w'))
          ↔ Verified manifest_path reference fingerprint signature_path w w'
    standalone_verify-Verified manifest_path reference fingerprint signature_path w w' = (
      verify-Verified manifest_path reference fingerprint signature_path w w',
      Verified-verify manifest_path reference fingerprint signature_path w w',
    )
