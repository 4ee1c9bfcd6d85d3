-- ===== src/Tests/CommandTests.antt =====
-- Runs of the commands on one image, and of copy.
use skopeo.Prelude.{
  ◌≡◌, refl, ◌↔◌, Bool, true, false, ◌&&◌, none, some, List, [], ◌∷◌, if◌then◌else◌,
}
use skopeo.Prelude.Int.{pos}
use skopeo.Prelude.Texts.{
  Text, lit, ◌==◌, cut, contains, split_n2, has_prefix, trim_prefix, drop_prefix,
}
use skopeo.Go.{ok, Exec, Result}
use skopeo.Go.Retry.{final}
use skopeo.External.Context.{background, SystemContext, Context}
use skopeo.External.Contents.{Crypto, Digests}
use skopeo.External.Names.{IsNamed}
use skopeo.External.Process.{
  Process, Capability, chown, dac_override, fowner, fsetid, mknod, setfcap,
}
use skopeo.External.Retry.{IsRetry}
use skopeo.Options.{parse_manifest_format, image_system_context, dest_system_context}
use skopeo.Options.Creds.{get_docker_auth, parse_creds}
use skopeo.Policy.{get_policy_context, destroying}
use skopeo.Unshare.{reexec_if_necessary_for_images, maybe_reexec}
use skopeo.Unshare.Laws.{uses_storage, reexec_lem}
use skopeo.Copy.{
  CopyCmdOptions, CryptoSettings, crypto_settings, add_tags, parse_additional_tag, copy_once,
  write_digest, copy_with_policy,
}
use skopeo.Copy as Copies
use skopeo.Copy.Laws.{Settled, crypto_settings-Settled}
use skopeo.Options.Warnings.{warn_if_used}
use skopeo.Copy.Digest.{DigestWritten, copy_once-DigestWritten}
use skopeo.Copy.Success.{Copied, run-Copied}
use skopeo.Delete.{DeleteOptions}
use skopeo.Delete as Deletions
use skopeo.Delete.Laws.{Deleted, run-Deleted}
use skopeo.ListTags as Listings
use skopeo.ListTags.Success.{TagsListed, run-TagsListed}
use skopeo.ListTags.{
  TagListOutput, TagsOptions, check_transport, list_docker_tags, parse_docker_repository_reference,
}
use skopeo.ListTags.Laws.{NamesRepository, parse_docker_repository_reference_iff}
use skopeo.Tests.OptionTests.{global, image, image_dest, image_ctx}
use skopeo.Tests.World.{
  named_of, kinds, references, host, remote, at_registry, Ref, name_of, path_of,
}

names : IsNamed kinds references
unfolding name_of
names = record { docker_name = refl; dir_name = refl }

retry : IsRetry kinds remote
retry = record { runs = λ A ctx opts m w. final refl }

abbrev has_none : Capability → Bool
has_none cap = false

abbrev pub process : Process kinds
process = record {
  new_pid = λ w. (ok has_none, w);
  maybe_reexec_using_user_namespace = λ needed w. lit "namespace" ∷ w;
  show_help = λ w. lit "help" ∷ w;
  print_stderr = λ s w. w;
}

abbrev pub digests : Digests kinds
digests = record { digest = λ s. ok (lit "sha256"); string = λ d. d }

abbrev crypto : Crypto kinds
crypto = record {
  create_crypto_config = λ encryption decryption w. (ok (lit "keys"), w);
  combine_crypto_configs = λ configs. lit "combined";
  encrypt_config = λ config. some config;
  decrypt_config = λ config. some config;
}

abbrev delete_image : Ref → Context → SystemContext kinds → Exec (List Text) (Unit {0})
delete_image ref ctx sys w = (ok tt, path_of ref ∷ w)

abbrev delete_opts : DeleteOptions
delete_opts = record { global = global; image = image; retry_opts = record { max_retry = pos 2 } }

-- Opens the code of the runs.
code : Unit {0}
unfolding Listings.run check_transport list_docker_tags named_of Deletions.run Copies.run
    copy_with_policy copy_once write_digest crypto_settings add_tags parse_additional_tag
    get_policy_context destroying lit ◌==◌ name_of image_system_context get_docker_auth parse_creds
    split_n2 contains dest_system_context cut drop_prefix has_prefix trim_prefix
    reexec_if_necessary_for_images maybe_reexec path_of parse_manifest_format
    parse_docker_repository_reference warn_if_used
code = tt

reexec_run :
    reexec_if_necessary_for_images kinds process references
      (lit "docker://box" ∷ lit "containers-storage:box" ∷ [])
      []
    ≡ (ok tt, lit "namespace" ∷ [])
unfolding code
reexec_run = refl

reexec_lem_example :
    reexec_if_necessary_for_images kinds process references
      (lit "docker://box" ∷ lit "containers-storage:box" ∷ [])
      []
    ≡ (
      ok tt,
      (if uses_storage kinds process references
            (lit "docker://box" ∷ lit "containers-storage:box" ∷ [])
          then (if has_none chown
                && has_none dac_override
                && has_none fowner
                && has_none fsetid
                && has_none mknod
                && has_none setfcap
              then []
              else lit "namespace" ∷ [])
          else []),
    )
reexec_lem_example =
    reexec_lem kinds process references (lit "docker://box" ∷ lit "containers-storage:box" ∷ []) []
      [] has_none refl

delete_run :
    Deletions.run kinds references remote process delete_image delete_opts
      (lit "docker://box:1" ∷ [])
      []
    ≡ (ok tt, lit "docker://box:1" ∷ [])
unfolding code
delete_run = refl

run-Deleted_example :
    Deleted kinds references remote process delete_image delete_opts
      (lit "docker://box:1")
      []
      (lit "docker://box:1" ∷ [])
run-Deleted_example =
    run-Deleted kinds references remote process delete_image delete_opts (lit "docker://box:1")
      retry [] (lit "docker://box:1" ∷ []) delete_run

abbrev copy_opts : CopyCmdOptions
copy_opts = record {
  global = global;
  deprecated_tls_verify = record { tls_verify = record { present = false; value = false } };
  src_image = image;
  dest_image = image_dest;
  retry_opts = record { max_retry = pos 0 };
  additional_tags = lit "box:3" ∷ [];
  remove_signatures = false;
  sign_by_fingerprint = [];
  digest_file = lit "/digest";
  format = record { present = true; value = lit "oci" };
  quiet = true;
  all = false;
  encrypt_layer = pos 0 ∷ [];
  encryption_keys = lit "key" ∷ [];
  decryption_keys = [];
}

copy_run :
    Copies.run kinds references host remote digests process crypto copy_opts
      (lit "docker://a" ∷ lit "docker://b" ∷ [])
      []
    ≡ (ok tt, lit "destroyed" ∷ lit "sha256" ∷ lit "docker://b" ∷ [])
unfolding code
copy_run = refl

run-Copied_example :
    Copied kinds references host remote digests process crypto copy_opts
      (lit "docker://a")
      (lit "docker://b")
      []
      (lit "destroyed" ∷ lit "sha256" ∷ lit "docker://b" ∷ [])
run-Copied_example =
    (run-Copied kinds references host remote digests process crypto copy_opts (lit "docker://a")
        (lit "docker://b") [] (lit "destroyed" ∷ lit "sha256" ∷ lit "docker://b" ∷ [])).0
      copy_run

abbrev settings : CryptoSettings kinds
settings = record {
  enc_layers = some (pos 0 ∷ []);
  enc_config = some (lit "combined");
  dec_config = none;
}

settings_run : crypto_settings kinds crypto copy_opts [] ≡ (ok settings, [])
unfolding code
settings_run = refl

crypto_settings-Settled_example : Settled kinds crypto copy_opts settings [] []
crypto_settings-Settled_example =
    (crypto_settings-Settled kinds crypto copy_opts settings [] []).0 settings_run

abbrev once : List Text → Result (Unit {0}) × List Text
once =
    copy_once kinds references host remote digests background (lit "default") copy_opts
      (at_registry (lit "b")) (at_registry (lit "a"))
      (Copies.copy_options kinds references host remote digests copy_opts image_ctx image_ctx []
        settings)

once_run : once [] ≡ (ok tt, lit "sha256" ∷ lit "b" ∷ [])
unfolding code
once_run = refl

copy_once-DigestWritten_example :
    (manifest : Text) × (copied : List Text) × (remote.copy_image background
        (lit "default")
        (at_registry (lit "b"))
        (at_registry (lit "a"))
        (Copies.copy_options kinds references host remote digests copy_opts image_ctx image_ctx []
          settings)
        []
      ≡ (ok manifest, copied))
    × DigestWritten kinds references host remote digests copy_opts manifest copied
        (lit "sha256" ∷ lit "b" ∷ [])
copy_once-DigestWritten_example =
    (copy_once-DigestWritten kinds references host remote digests background (lit "default")
        copy_opts (at_registry (lit "b")) (at_registry (lit "a"))
        (Copies.copy_options kinds references host remote digests copy_opts image_ctx image_ctx []
          settings)
        [] (lit "sha256" ∷ lit "b" ∷ [])).0
      once_run

parse_docker_repository_reference_iff_example :
    (parse_docker_repository_reference kinds references (lit "docker://box")
      ≡ ok (at_registry (lit "box")))
    ↔ NamesRepository kinds references (lit "docker://box") (at_registry (lit "box"))
parse_docker_repository_reference_iff_example =
    parse_docker_repository_reference_iff kinds references names (lit "docker://box")
      (at_registry (lit "box"))

abbrev tags_opts : TagsOptions
tags_opts = record { global = global; image = image; retry_opts = record { max_retry = pos 0 } }

abbrev json_of : TagListOutput → Result Text
json_of output = ok output.repository

list_tags_run :
    Listings.run kinds references host remote json_of tags_opts (lit "docker://box" ∷ []) []
    ≡ (ok tt, lit "box\n" ∷ [])
unfolding code
list_tags_run = refl

run-TagsListed_example :
    TagsListed kinds references host remote json_of tags_opts
      (lit "docker://box")
      []
      (lit "box\n" ∷ [])
run-TagsListed_example =
    (run-TagsListed kinds references host remote json_of tags_opts (lit "docker://box") names []
        (lit "box\n" ∷ [])).0
      list_tags_run
