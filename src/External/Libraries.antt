-- ===== src/External/Libraries.antt =====
-- The functions of the libraries and of the operating system that the program calls. What they do is
-- not assumed here: a theorem that needs it says so.
use skopeo.Prelude.{Bool, Option, List}
use skopeo.Prelude.Int.{ℤ}
use skopeo.Prelude.Texts.{Text}
use skopeo.Go.{Foreign, Result, Exec}
use skopeo.Options.{MediaTypes, RetryOptions}
use skopeo.External.Context.{Kinds, SystemContext, Context}
use skopeo.External.Files.{Tree}

-- types.ImageTransport: `docker.Transport`, `directory.Transport`, or one with another `Name()`.
pub data Transport : Type 0 where
  docker directory : Transport
  other : Text → Transport

-- copy.ImageListSelection
pub data ImageListSelection : Type 0 where
  copy_system_image copy_all_images : ImageListSelection

-- An `io.Writer` for reports: `os.Stdout`, or the command's output.
pub data Writer : Type 0 where
  os_stdout command_output : Writer

-- copy.Options, with the fields that the program sets.
pub record CopyOptions (K : Kinds) : Type 0 where
  pub remove_signatures : Bool
  pub sign_by : Text
  pub report_writer : Option Writer
  pub source_ctx : SystemContext K
  pub destination_ctx : SystemContext K
  pub image_list_selection : ImageListSelection
  pub optimize_destination_image_already_exists : Bool
  pub force_manifest_mime_type : Text
  pub oci_decrypt_config : Option (K.DecryptConfig)
  pub oci_encrypt_layers : Option (List ℤ)
  pub oci_encrypt_config : Option (K.EncryptConfig)

-- Packages reference and digest, and the transports.
pub record References (K : Kinds) : Type 0 where
  pub parse_normalized_named : Text → Result (K.Named)
  pub is_name_only : K.Named → Bool
  pub name : K.Named → Text
  pub string : K.Named → Text
  -- The tag of a `reference.Tagged`.
  pub tag? : K.Named → Option Text
  pub with_tag : K.Named → Text → Result (K.Named)
  pub with_digest : K.Named → K.Digest → Result (K.Named)
  pub tag_name_only : K.Named → K.Named
  pub parse_digest : Text → Result (K.Digest)
  -- `docker.NewReference`
  pub new_reference : K.Named → Result (K.ImageReference)
  -- `docker.Transport.Name()` and the like
  pub transport_name : Transport → Text
  -- `ParseReference`; that of a directory looks at the disk, which is taken not to change
  pub parse_reference : Transport → Text → Result (K.ImageReference)
  pub transport : K.ImageReference → Transport
  -- `DockerReference()`, which may be nil
  pub docker_reference : K.ImageReference → Option (K.Named)
  pub string_within_transport : K.ImageReference → Text
  -- `alltransports.ParseImageName` and `alltransports.TransportFromImageName`
  pub parse_image_name : Text → Result (K.ImageReference)
  pub transport_from_image_name : Text → Option Transport
  pub image_name : K.ImageReference → Text
  -- `regexp.Compile`, with the `MatchString` of what it returns
  pub compile_regexp : Text → Result (Text → Bool)

-- The operating system, as far as files and the output go.
pub record Host (K : Kinds) : Type 0 where
  pub stat : Text → Exec (K.World) (Unit {0})
  pub mkdir_all : Text → Exec (K.World) (Unit {0})
  pub read_file : Text → Exec (K.World) Text
  pub write_file : Text → Text → Exec (K.World) (Unit {0})
  -- What is below a path at the time of the call.
  pub file_tree : Text → K.World → Tree × K.World
  -- `stdout.Write` and `fmt.Fprintf(stdout, ...)`
  pub write_stdout : Text → Exec (K.World) (Unit {0})
  -- `logrus.Warn`, of the warnings that stand by themselves
  pub warn : Text → K.World → K.World

-- Package retry, package docker, package copy, package signature.
pub record Remote (K : Kinds) : Type 1 where
  pub retry_if_necessary :
      (A : Type 0) → Context → RetryOptions → Exec (K.World) A → Exec (K.World) A
  -- The tags and the error are returned together.
  pub get_repository_tags :
      Context
      → SystemContext K
      → K.ImageReference
      → K.World
      → (List Text × Option Foreign) × K.World
  -- `copy.Image` returns the manifest.
  pub copy_image :
      Context
      → K.PolicyContext
      → K.ImageReference
      → K.ImageReference
      → CopyOptions K
      → Exec (K.World) Text
  pub algorithm_by_name : Text → Result (K.Algorithm)
  pub media_types : MediaTypes
  pub insecure_accept_anything : K.Policy
  pub default_policy : Exec (K.World) (K.Policy)
  pub new_policy_from_file : Text → Exec (K.World) (K.Policy)
  pub new_policy_context : K.Policy → Exec (K.World) (K.PolicyContext)
  pub destroy : K.PolicyContext → K.World → K.World
