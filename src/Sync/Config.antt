-- ===== src/Sync/Config.antt =====
-- The YAML source file of `skopeo sync`: `sourceConfig` and how it is read. The maps are lists, in
-- the order in which Go iterates over them.
use skopeo.Prelude.{Bool, not, Option, none, some, List, [], ◌∷◌}
use skopeo.Prelude.Texts.{Text}
use skopeo.Go.{Result, ok, err, wrapped, Exec, ◌>>=◌, lift, or_wrap}
use skopeo.External.Context.{
  Kinds, SystemContext, OptionalTruth, undefined, new_optional_bool, DockerAuthConfig,
}
use skopeo.External.Libraries.{Host}

pub record RepoDescriptor (K : Kinds) : Type 0 where
  pub dir_base_path : Text
  pub image_refs : List (K.ImageReference)
  pub context : SystemContext K

pub record TlsVerifyConfig : Type 0 where
  pub skip : OptionalTruth

pub record RegistrySyncConfig : Type 0 where
  pub images : List (Text × List Text)
  pub images_by_tag_regex : List (Text × Text)
  pub credentials : DockerAuthConfig
  pub tls_verify : TlsVerifyConfig
  pub cert_dir : Text

abbrev pub SourceConfig : Type 0
SourceConfig = List (Text × RegistrySyncConfig)

-- A registry as package yaml reads it. Of a `tls-verify` key it has what `unmarshal(&verify)` gives.
pub record RawRegistry : Type 0 where
  pub images : List (Text × List Text)
  pub images_by_tag_regex : List (Text × Text)
  pub credentials : DockerAuthConfig
  pub tls_verify : Option (Result Bool)
  pub cert_dir : Text

-- `UnmarshalYAML` of `*tlsVerifyConfig`, which package yaml calls if the key is there.
unfoldable pub unmarshal_yaml : Result Bool → Result TlsVerifyConfig
unmarshal_yaml (err e) = err e
unmarshal_yaml (ok verify) = ok (record { skip = new_optional_bool (not verify) })

abbrev decode_tls_verify : Option (Result Bool) → Result TlsVerifyConfig
decode_tls_verify none = ok (record { skip = undefined })
decode_tls_verify (some key) = unmarshal_yaml key

abbrev with_tls : RawRegistry → Result TlsVerifyConfig → Result RegistrySyncConfig
with_tls raw (err e) = err e
with_tls raw (ok tls) = ok (record {
  images = raw.images;
  images_by_tag_regex = raw.images_by_tag_regex;
  credentials = raw.credentials;
  tls_verify = tls;
  cert_dir = raw.cert_dir;
})

unfoldable pub decode_registry : RawRegistry → Result RegistrySyncConfig
unfolding unmarshal_yaml
decode_registry raw = with_tls raw (decode_tls_verify raw.tls_verify)

abbrev add_entry : Text → Result RegistrySyncConfig → Result SourceConfig → Result SourceConfig
add_entry name (err e) rest = err e
add_entry name (ok cfg) (err e) = err e
add_entry name (ok cfg) (ok rest) = ok ((name, cfg) ∷ rest)

decode_registries : List (Text × RawRegistry) → Result SourceConfig
decode_registries [] = ok []
decode_registries ((name, raw) ∷ raws) =
    add_entry name (decode_registry raw) (decode_registries raws)

abbrev decode_source : Result (List (Text × RawRegistry)) → Result SourceConfig
decode_source (err e) = err e
decode_source (ok raws) = decode_registries raws

module _ (K : Kinds) (H : Host K) (parse_yaml : Text → Result (List (Text × RawRegistry))) where
  unfoldable pub new_source_config : Text → Exec (K.World) SourceConfig
  unfolding decode_registries
  new_source_config yaml_file = do
    source ← H.read_file yaml_file
    or_wrap (λ e. wrapped e "Failed to unmarshal %q" (yaml_file ∷ []))
        (lift (decode_source (parse_yaml source)))
