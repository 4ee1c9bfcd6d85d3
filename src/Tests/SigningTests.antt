-- ===== src/Tests/SigningTests.antt =====
-- Runs of the standalone signing and verification.
use skopeo.Prelude.{◌≡◌, refl, List, [], ◌∷◌, ◌++◌, if◌then◌else◌}
use skopeo.Prelude.Texts.{Text, lit, ◌==◌}
use skopeo.Go.{ok, err, errorf}
use skopeo.External.Signatures.{Signatures}
use skopeo.Signing.{
  StandaloneSignOptions, print, closing_mechanism, standalone_sign, standalone_verify,
}
use skopeo.Signing.Verified.{Verified, standalone_verify-Verified}
use skopeo.Tests.CommandTests.{digests}
use skopeo.Tests.World.{kinds, host}

-- A file holds its own name; a signature is the fingerprint and the manifest.
abbrev signatures : Signatures kinds
signatures = record {
  new_gpg_signing_mechanism = λ w. (ok (lit "gpg"), w);
  close_mechanism = λ mech w. lit "closed" ∷ w;
  sign_docker_manifest = λ manifest reference mech fingerprint w. (ok (fingerprint ++ manifest), w);
  verify_docker_manifest_signature = λ signature manifest reference mech fingerprint w. (
    if signature == fingerprint ++ manifest
        then ok (lit "sha256")
        else err (errorf "no signature" []),
    w,
  );
}

abbrev opts : StandaloneSignOptions
opts = record { output = lit "/signature" }

code : Unit {0}
unfolding standalone_sign standalone_verify closing_mechanism print lit ◌==◌
code = tt

sign_run :
    standalone_sign kinds host signatures opts (lit "/manifest" ∷ lit "box" ∷ lit "key" ∷ []) []
    ≡ (ok tt, lit "closed" ∷ lit "key/manifest" ∷ [])
unfolding code
sign_run = refl

abbrev printed : List Text
printed = lit "closed" ∷ (lit "Signature verified, digest " ++ lit "sha256" ++ b'\n' ∷ []) ∷ []

abbrev arguments : List Text
arguments = lit "/manifest" ∷ lit "box" ∷ lit "key" ∷ lit "key/manifest" ∷ []

verify_run : standalone_verify kinds host signatures digests arguments [] ≡ (ok tt, printed)
unfolding code
verify_run = refl

standalone_verify-Verified_example :
    Verified kinds host signatures digests
      (lit "/manifest")
      (lit "box")
      (lit "key")
      (lit "key/manifest")
      []
      printed
standalone_verify-Verified_example =
    (standalone_verify-Verified kinds host signatures digests (lit "/manifest") (lit "box")
        (lit "key") (lit "key/manifest") [] printed).0
      verify_run
