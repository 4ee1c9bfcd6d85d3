-- ===== src/Tests/World.antt =====
-- Stand-ins for the libraries: names are texts, and the world is the list of what was done to it.
use skopeo.Prelude.{not, ◌||◌, Option, none, some, String, List, [], ◌∷◌, ◌++◌, if◌then◌else◌}
use skopeo.Prelude.Texts.{Text, lit, ◌==◌, contains, cut, trim_prefix, has_prefix, is_blank}
use skopeo.Go.{not_exist, Result, ok, err, GoError, errorf, foreign}
use skopeo.External.Context.{Kinds}
use skopeo.External.Files.{Tree, file, dir, end, entry}
use skopeo.External.Libraries.{References, Host, Remote, Transport, docker, directory, other}

pub data Ref : Type 0 where
  at_registry : Text → Ref
  at_dir : Text → Ref

abbrev pub kinds : Kinds
kinds = record {
  World = List Text;
  Named = Text;
  Digest = Text;
  ImageReference = Ref;
  Algorithm = Text;
  Policy = Text;
  PolicyContext = Text;
  CryptoConfig = Text;
  EncryptConfig = Text;
  DecryptConfig = Text;
  ImageSource = Text;
  Image = Text;
  ImageDestination = Text;
  Reader = Text;
  BlobInfoCache = Text;
  OciConfig = Text;
  Mechanism = Text;
}

unfoldable pub transport_of : Ref → Transport
transport_of (at_registry s) = docker
transport_of (at_dir s) = directory

unfoldable pub named_of : Ref → Option Text
named_of (at_registry s) = some s
named_of (at_dir s) = none

unfoldable pub path_of : Ref → Text
path_of (at_registry s) = s
path_of (at_dir s) = s

unfoldable pub name_of : Transport → Text
name_of docker = lit "docker"
name_of directory = lit "dir"
name_of (other s) = s

unfoldable pub parse_ref : Transport → Text → Result Ref
unfolding trim_prefix
parse_ref directory s = ok (at_dir s)
parse_ref _ s = ok (at_registry (trim_prefix s (b'/' ∷ b'/' ∷ [])))

abbrev refuse : String → Text → GoError
refuse why s = errorf why (s ∷ [])

abbrev pub references : References kinds
references = record {
  parse_normalized_named = λ s. if is_blank s then err (refuse "no name" s) else ok s;
  is_name_only = λ s. not (contains s (b':' ∷ []));
  name = λ s. (cut b':' s).0;
  string = λ s. s;
  tag? = λ s. (cut b':' s).1;
  with_tag = λ s t. ok (s ++ b':' ∷ t);
  with_digest = λ s d. ok (s ++ b'@' ∷ d);
  tag_name_only = λ s. s;
  parse_digest = λ s. if has_prefix s (lit "sha256") then ok s else err (refuse "no digest" s);
  new_reference = λ s. ok (at_registry s);
  transport_name = name_of;
  parse_reference = parse_ref;
  transport = transport_of;
  docker_reference = named_of;
  string_within_transport = path_of;
  parse_image_name = λ s. ok (at_registry s);
  transport_from_image_name = λ s.
      if has_prefix s (lit "docker:")
      then some docker
      else if has_prefix s (lit "containers-storage:")
      then some (other (lit "containers-storage"))
      else none;
  image_name = path_of;
  compile_regexp = λ s. ok (λ t. has_prefix t s);
}

abbrev pub manifests : Tree
manifests =
    dir (entry (lit "a") (dir (entry (lit "manifest.json") file end)) (entry (lit "b") file end))

abbrev absent : GoError
absent = foreign (record { kind = not_exist; message = [] })

abbrev pub host : Host kinds
host = record {
  stat = λ p w. if p == lit "/src" || p == lit "/taken/box:2" then (ok tt, w) else (err absent, w);
  mkdir_all = λ p w. (ok tt, w);
  read_file = λ p w. (ok p, w);
  write_file = λ p s w. (ok tt, s ∷ w);
  file_tree = λ p w. (manifests, w);
  write_stdout = λ s w. (ok tt, s ∷ w);
  warn = λ s w. s ∷ w;
}

abbrev pub remote : Remote kinds
remote = record {
  retry_if_necessary = λ A ctx opts m. m;
  get_repository_tags = λ ctx sys ref w. (((b'1' ∷ []) ∷ (b'2' ∷ []) ∷ [], none), w);
  copy_image = λ ctx policy dest src options w. (ok [], path_of dest ∷ w);
  algorithm_by_name = λ s. ok s;
  media_types = record {
    image_manifest = lit "application/vnd.oci.image.manifest.v1+json";
    docker_v2_schema1_signed = lit "application/vnd.docker.distribution.manifest.v1+prettyjws";
    docker_v2_schema2 = lit "application/vnd.docker.distribution.manifest.v2+json";
  };
  insecure_accept_anything = lit "insecureAcceptAnything";
  default_policy = λ w. (ok (lit "default"), w);
  new_policy_from_file = λ p w. (ok p, w);
  new_policy_context = λ p w. (ok p, w);
  destroy = λ p w. lit "destroyed" ∷ w;
}
