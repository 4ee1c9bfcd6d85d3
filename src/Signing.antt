-- ===== src/Signing.antt =====
-- cmd/skopeo/signing.go
pub mod Laws
pub mod Verified
pub mod RoundTrip
use skopeo.Prelude.{Bool, true, false, ◌||◌, List, [], ◌∷◌, ◌++◌, if◌then◌else◌}
use skopeo.Prelude.Texts.{Text, lit, is_blank}
use skopeo.Go.{
  GoError, Result, ok, err, errorf, errorf_of, Exec, continue, ◌>>=◌, ◌>>◌, pure, fail, lift,
  or_wrap, reject_if,
}
use skopeo.External.Context.{Kinds}
use skopeo.External.Contents.{Digests}
use skopeo.External.Libraries.{Host}
use skopeo.External.Signatures.{Signatures}

pub record StandaloneSignOptions : Type 0 where
  pub output : Text

module _ (K : Kinds) (H : Host K) (S : Signatures K) where
  -- `defer mech.Close()`: the rest of a command that holds a mechanism.
  unfoldable pub closing_mechanism :
      {A : Type 0} → K.Mechanism → Exec (K.World) A → Exec (K.World) A
  closing_mechanism mech body w = let (r, w') = body w in (r, S.close_mechanism mech w')

  sign_with : StandaloneSignOptions → Text → Text → Text → K.Mechanism → Exec (K.World) (Unit {0})
  sign_with opts manifest docker_reference fingerprint mech = do
    signature ←
        or_wrap (errorf_of "Error creating signature: %v" [])
          (S.sign_docker_manifest manifest docker_reference mech fingerprint)
    or_wrap (errorf_of "Error writing signature to %s: %v" (opts.output ∷ []))
        (H.write_file opts.output signature)

  abbrev sign_usage : Exec (K.World) (Unit {0})
  sign_usage = fail (
      errorf "Usage: skopeo standalone-sign manifest docker-reference key-fingerprint -o signature"
        [])

  -- `run` of `*standaloneSignOptions`
  unfoldable pub standalone_sign : StandaloneSignOptions → List Text → Exec (K.World) (Unit {0})
  unfolding sign_with
  standalone_sign opts (manifest_path ∷ docker_reference ∷ fingerprint ∷ []) =
      if is_blank opts.output then sign_usage else (do
        manifest ←
            or_wrap (errorf_of "Error reading %s: %v" (manifest_path ∷ []))
              (H.read_file manifest_path)
        mech ← or_wrap (errorf_of "Error initializing GPG: %v" []) S.new_gpg_signing_mechanism
        closing_mechanism mech (sign_with opts manifest docker_reference fingerprint mech))
  standalone_sign opts _ = sign_usage

  module _ (D : Digests K) where
    -- What `fmt.Fprintf` returns is dropped.
    unfoldable pub print : Text → Exec (K.World) (Unit {0})
    print s w = let (r, w') = H.write_stdout s w in (ok tt, w')

    verify_with : Text → Text → Text → Text → K.Mechanism → Exec (K.World) (Unit {0})
    verify_with unverified_signature unverified_manifest expected_docker_reference
          expected_fingerprint mech =
        do
          digest ← or_wrap (errorf_of "Error verifying signature: %v" []) (
              S.verify_docker_manifest_signature unverified_signature unverified_manifest
                expected_docker_reference mech expected_fingerprint)
          print (lit "Signature verified, digest " ++ D.string digest ++ b'\n' ∷ [])

    -- `run` of `*standaloneVerifyOptions`
    unfoldable pub standalone_verify : List Text → Exec (K.World) (Unit {0})
    unfolding verify_with
    standalone_verify
          (manifest_path ∷ expected_docker_reference ∷ expected_fingerprint ∷ signature_path ∷ []) =
        do
          unverified_manifest ←
              or_wrap (errorf_of "Error reading manifest from %s: %v" (manifest_path ∷ []))
                (H.read_file manifest_path)
          unverified_signature ←
              or_wrap (errorf_of "Error reading signature from %s: %v" (signature_path ∷ []))
                (H.read_file signature_path)
          mech ← or_wrap (errorf_of "Error initializing GPG: %v" []) S.new_gpg_signing_mechanism
          closing_mechanism mech (
              verify_with unverified_signature unverified_manifest expected_docker_reference
                expected_fingerprint mech)
    standalone_verify _ = fail (
        errorf "Usage: skopeo standalone-verify manifest docker-reference key-fingerprint signature"
          [])

    -- `run` of `*untrustedSignatureDumpOptions`. The argument is
    -- `GetUntrustedSignatureInformationWithoutVerifying`, with `json.MarshalIndent` of what it
    -- returns.
    unfoldable pub untrusted_signature_dump :
        {Info : Type 0}
        → (Text → Result Info)
        → (Info → Result Text)
        → List Text
        → Exec (K.World) (Unit {0})
    unfolding print
    untrusted_signature_dump get_information marshal_indent (untrusted_signature_path ∷ []) = do
      untrusted_signature ←
          or_wrap
            (errorf_of "Error reading untrusted signature from %s: %v"
              (untrusted_signature_path ∷ []))
            (H.read_file untrusted_signature_path)
      untrusted_info ←
          or_wrap (errorf_of "Error decoding untrusted signature: %v" [])
            (lift (get_information untrusted_signature))
      untrusted_out ← lift (marshal_indent untrusted_info)
      print (untrusted_out ++ b'\n' ∷ [])
    untrusted_signature_dump get_information marshal_indent _ =
        fail (errorf "Usage: skopeo untrusted-signature-dump-without-verification signature" [])

    -- `run` of `*manifestDigestOptions`, cmd/skopeo/manifest.go
    unfoldable pub manifest_digest : List Text → Exec (K.World) (Unit {0})
    unfolding print
    manifest_digest (manifest_path ∷ []) = do
      man ←
          or_wrap (errorf_of "Error reading manifest from %s: %v" (manifest_path ∷ []))
            (H.read_file manifest_path)
      digest ← or_wrap (errorf_of "Error computing digest: %v" []) (lift (D.digest man))
      print (D.string digest ++ b'\n' ∷ [])
    manifest_digest _ = fail (errorf "Usage: skopeo manifest-digest manifest" [])
