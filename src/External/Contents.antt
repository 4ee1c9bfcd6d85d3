-- ===== src/External/Contents.antt =====
-- What the libraries compute of manifests and keys: packages manifest and digest, ocicrypt's packages
-- config and helpers, and encoding/json.
use skopeo.Prelude.{Option, List}
use skopeo.Prelude.Texts.{Text}
use skopeo.Go.{Result, Exec}
use skopeo.External.Context.{Kinds}

-- `manifest.Digest` and `Digest.String()`
pub record Digests (K : Kinds) : Type 0 where
  pub digest : Text → Result (K.Digest)
  pub string : K.Digest → Text

pub record Crypto (K : Kinds) : Type 0 where
  -- `enchelpers.CreateCryptoConfig`, which reads the files of the keys
  pub create_crypto_config : List Text → List Text → Exec (K.World) (K.CryptoConfig)
  pub combine_crypto_configs : List (K.CryptoConfig) → K.CryptoConfig
  -- The two fields, which may be nil.
  pub encrypt_config : K.CryptoConfig → Option (K.EncryptConfig)
  pub decrypt_config : K.CryptoConfig → Option (K.DecryptConfig)
