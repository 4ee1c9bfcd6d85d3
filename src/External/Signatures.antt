-- ===== src/External/Signatures.antt =====
-- Package signature.
use skopeo.Prelude.Texts.{Text}
use skopeo.Go.{Exec}
use skopeo.External.Context.{Kinds}

pub record Signatures (K : Kinds) : Type 0 where
  pub new_gpg_signing_mechanism : Exec (K.World) (K.Mechanism)
  -- `mech.Close()`, whose error no command looks at
  pub close_mechanism : K.Mechanism → K.World → K.World
  -- Of a manifest, a reference, a mechanism and a fingerprint
  pub sign_docker_manifest : Text → Text → K.Mechanism → Text → Exec (K.World) Text
  -- Of a signature, a manifest, a reference, a mechanism and a fingerprint: the
  -- `DockerManifestDigest` of the signature
  pub verify_docker_manifest_signature :
      Text → Text → Text → K.Mechanism → Text → Exec (K.World) (K.Digest)
