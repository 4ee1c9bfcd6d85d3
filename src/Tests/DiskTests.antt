-- ===== src/Tests/DiskTests.antt =====
-- A disk for the standalone signing and verification: the world is the list of the files that were
-- written, each its path and its content, the last one first.
use skopeo.Prelude.{◌≡◌, ◌||◌, Option, none, some, List, [], ◌∷◌, ◌++◌, if◌then◌else◌}
use skopeo.Prelude.Texts.{Text, lit, ◌==◌}
use skopeo.Go.{Result, ok, err, errorf}
use skopeo.External.Contents.{Digests}
use skopeo.External.Libraries.{Host}
use skopeo.External.Signatures.{Signatures}
use skopeo.Signing.{StandaloneSignOptions, closing_mechanism, standalone_sign}
use skopeo.Signing.RoundTrip.{Disk}
use skopeo.Tests.World.{kinds, host, references}

unfoldable find : List Text → Text → Option Text
find (p ∷ s ∷ files) q = let rest = find files q in if p == q then some s else rest
find _ q = none

unfoldable contents : Option Text → Result Text
contents (some s) = ok s
contents none = err (errorf "no such file" [])

abbrev disk_host : Host kinds
disk_host = record {
  stat = host.stat;
  mkdir_all = host.mkdir_all;
  read_file = λ p w. (contents (find w p), w);
  write_file = λ p s w. (ok tt, p ∷ s ∷ w);
  file_tree = host.file_tree;
  write_stdout = λ s w. (ok tt, lit "/dev/stdout" ∷ s ∷ w);
  warn = host.warn;
}

-- One key, which two texts name.
abbrev fingerprint_named : Text → Option Text
fingerprint_named key = if key == lit "key" || key == lit "F00D" then some (lit "F00D") else none

abbrev signature_of : Text → Text → Text → Text
signature_of manifest reference fingerprint = fingerprint ++ reference ++ manifest

unfoldable sign_as : Text → Text → Option Text → Result Text
sign_as manifest reference (some fingerprint) = ok (signature_of manifest reference fingerprint)
sign_as manifest reference none = err (errorf "no such key" [])

abbrev signatures : Signatures kinds
signatures = record {
  new_gpg_signing_mechanism = λ w. (ok (lit "gpg"), w);
  close_mechanism = λ mech w. w;
  sign_docker_manifest =
      λ manifest reference mech key w. (sign_as manifest reference (fingerprint_named key), w);
  verify_docker_manifest_signature = λ signature manifest reference mech fingerprint w. (
    if signature == signature_of manifest reference fingerprint
        then ok manifest
        else err (errorf "no signature" []),
    w,
  );
}

abbrev digests : Digests kinds
digests = record { digest = λ s. ok s; string = λ s. s }

abbrev disk : Disk kinds disk_host signatures digests references
disk = record {
  Keyring = Unit {0};
  content = find;
  keyring = λ w. tt;
  keyring_of = λ mech. tt;
  fingerprint_of = λ keys key. fingerprint_named key;
  IsUsable = λ keys fingerprint. fingerprint ≡ lit "F00D";
  IsSignature = λ signature digest reference fingerprint.
      signature_of digest reference fingerprint ≡ signature;
}

abbrev opts : StandaloneSignOptions
opts = record { output = lit "/sig" }

abbrev files : List Text
files = lit "/manifest" ∷ lit "layers" ∷ []

code : Unit {0}
unfolding standalone_sign closing_mechanism sign_as find contents ◌==◌ lit
code = tt
