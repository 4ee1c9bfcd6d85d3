-- ===== src/Signing/RoundTrip.antt =====
-- Signing and verification together: cmd/skopeo/signing.go
use skopeo.Prelude.{◌≡◌, ◌≢◌, Option, some}
use skopeo.Prelude.Texts.{Text}
use skopeo.Go.{ok}
use skopeo.External.Context.{Kinds}
use skopeo.External.Contents.{Digests}
use skopeo.External.Libraries.{References, Host}
use skopeo.External.Signatures.{Signatures}
use skopeo.Signing.{StandaloneSignOptions}
use skopeo.Signing.Laws.{Signed}

module _ (K : Kinds) (H : Host K) (S : Signatures K) (D : Digests K) (R : References K) where
  -- The disk, as packages ioutil and signature use it: the content of a file by its path, and the
  -- keyring of the user; and what signatures are.
  pub record Disk : Type 1 where
    pub Keyring : Type 0
    pub content : K.World → Text → Option Text
    pub keyring : K.World → Keyring
    -- The keyring that a mechanism was made with.
    pub keyring_of : K.Mechanism → Keyring
    -- The fingerprint of the key that a text names: an address, a short identity or a fingerprint.
    pub fingerprint_of : Keyring → Text → Option Text
    -- The key has not expired, is not revoked and is not marked as one never to trust.
    pub IsUsable : Keyring → Text → Type 0
    -- The signature is by the key with this fingerprint, and is about this digest and reference.
    pub IsSignature : Text → K.Digest → Text → Text → Type 0

  pub record SameDisk (disk : Disk) (w v : K.World) : Type 0 where
    pub same_content : (path : Text) → disk.content v path ≡ disk.content w path
    pub same_keyring : disk.keyring v ≡ disk.keyring w

  -- What the packages document, where each file has one path.
  pub record IsDocumented (disk : Disk) : Type 0 where
    -- `ioutil.ReadFile` succeeds with the content of the file, and only with that.
    pub reads :
        (path : Text) {s : Text} {w v : K.World}
        → H.read_file path w ≡ (ok s, v)
        → (disk.content w path ≡ some s) × SameDisk disk w v
    pub readable :
        (path : Text) {s : Text} (w : K.World)
        → disk.content w path ≡ some s
        → (v : K.World) × (H.read_file path w ≡ (ok s, v))
    -- `ioutil.WriteFile` replaces the content of that file.
    pub writes :
        (path s : Text) {w v : K.World}
        → H.write_file path s w ≡ (ok tt, v)
        → disk.content v path ≡ some s
    pub writes_one :
        (path s : Text) {w v : K.World}
        → H.write_file path s w ≡ (ok tt, v)
        → (other : Text) → other ≢ path
        → disk.content v other ≡ disk.content w other
    pub writes_no_key :
        (path s : Text) {w v : K.World}
        → H.write_file path s w ≡ (ok tt, v)
        → disk.keyring v ≡ disk.keyring w
    -- A mechanism uses the keyring of the user, and one can be made where one was made with it.
    pub initializes :
        {mech : K.Mechanism} {w v : K.World}
        → S.new_gpg_signing_mechanism w ≡ (ok mech, v)
        → (disk.keyring_of mech ≡ disk.keyring w) × SameDisk disk w v
    pub initializes_again :
        {mech : K.Mechanism} {w v : K.World} (u : K.World)
        → S.new_gpg_signing_mechanism w ≡ (ok mech, v)
        → disk.keyring u ≡ disk.keyring w
        → (mech' : K.Mechanism) × (v' : K.World) × (S.new_gpg_signing_mechanism u ≡ (ok mech', v'))
    pub closes : (mech : K.Mechanism) (w : K.World) → SameDisk disk w (S.close_mechanism mech w)
    -- `SignDockerManifest` signs the digest of the manifest and the reference, as it is, with the key
    -- that is named, and leaves the disk as it is.
    pub signs :
        {manifest reference key signature : Text} {mech : K.Mechanism} {w v : K.World}
        → S.sign_docker_manifest manifest reference mech key w ≡ (ok signature, v)
        → SameDisk disk w v
          × ((fingerprint : Text) × (digest : K.Digest) × (disk.fingerprint_of
                  (disk.keyring_of mech)
                  key
                ≡ some fingerprint)
              × (D.digest manifest ≡ ok digest)
              × disk.IsSignature signature digest reference fingerprint)
    -- `VerifyDockerManifestSignature` accepts a signature by a key that can be used, if its
    -- fingerprint is exactly the one expected, its digest is that of the manifest, and its reference
    -- and the one expected are normalized to the same; it returns the digest.
    pub verifies :
        {signature manifest signed expected fingerprint : Text} {digest : K.Digest}
        {named expected_named : K.Named} (mech : K.Mechanism) (u : K.World)
        → disk.IsSignature signature digest signed fingerprint
        → disk.IsUsable (disk.keyring_of mech) fingerprint
        → D.digest manifest ≡ ok digest
        → R.parse_normalized_named signed ≡ ok named
        → R.parse_normalized_named expected ≡ ok expected_named
        → R.string named ≡ R.string expected_named
        → (v : K.World) × (S.verify_docker_manifest_signature signature manifest expected mech
              fingerprint u
            ≡ (ok digest, v))

  module _ (disk : Disk) (known : IsDocumented disk) (opts : StandaloneSignOptions)
      (manifest_path reference key : Text) where
    -- The disk after a signing: the manifest as it was, and its signature.
    record LeftSigned (w w' : K.World) (s : Signed K H S opts manifest_path reference key w w')
        : Type 0 where
      had_manifest : disk.content w manifest_path ≡ some s.manifest
      has_manifest : disk.content w' manifest_path ≡ some s.manifest
      has_signature : disk.content w' opts.output ≡ some s.signature
      had_keys : disk.keyring w' ≡ disk.keyring s.read
      used_keys : disk.keyring_of s.mech ≡ disk.keyring s.read
      same_keys : disk.keyring s.read ≡ disk.keyring w
