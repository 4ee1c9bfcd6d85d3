-- ===== src/Tests/SyncTests.antt =====
-- Runs of `skopeo sync`.
use skopeo.Prelude.{
  ℕ, ◌+◌, ◌≡◌, refl, ◌↔◌, ◌⊎◌, ◌≢◌, true, false, none, some, List, [], ◌∷◌, ◌++◌, arith,
}
use skopeo.Prelude.Int.{pos}
use skopeo.Prelude.Lists.{All}
use skopeo.Prelude.Texts.{
  Text, is_blank, lit, ◌==◌, ==_iff, cut, contains, split_n2, has_prefix, trim_prefix, drop_prefix,
}
use skopeo.Prelude.Texts.Laws.{Lacks}
use skopeo.Go.{ok, err, GoError, Result, errorf, is_not_exist}
use skopeo.Go.Path.{
  slash, base, join, elements, clean, clean_elements, join_elements, strip_slashes, after_last,
  dir_of, up_to_last_slash,
}
use skopeo.External.Context.{background, SystemContext, undefined}
use skopeo.External.Libraries.{CopyOptions, docker}
use skopeo.Options.{image_system_context, dest_system_context}
use skopeo.Options.Creds.{get_docker_auth, parse_creds}
use mathlib.Core.Option.{or_else}
use skopeo.Policy.{get_policy_context, destroying}
use skopeo.Sync.Config.{RepoDescriptor, RegistrySyncConfig, RawRegistry}
use skopeo.Sync.Source.{get_image_tags, refs_of_tags, images_to_copy_from_repo}
use skopeo.Sync.Walk.{images_to_copy_from_dir}
use skopeo.Sync.Walk.Laws.{IsReadable, image_dirs, images_to_copy_from_dir_lem, collect, outcome_of}
use skopeo.Sync.Registry.{images_from_docker, images_to_copy, images_to_copy_from_registry}
use skopeo.Sync.Registry.Laws.{HasImages, images_to_copy-HasImages}
use skopeo.Sync.Registry.Served.{
  Rounds, Listed, ByRegex, context_of, images_to_copy_from_registry_lem,
}
use skopeo.Sync.Run.{
  SyncOptions, check_transports, copy_options, copy_ref, copy_refs, copy_repos, dest_suffix,
  destination_reference, make_directory, run_with_policy, run,
}
use skopeo.Go.Path.Laws.{IsPlain}
use skopeo.External.Names.{IsNamed}
use skopeo.Sync.Run.Checks.{Allowed, check_transports_iff}
use skopeo.Sync.Run.Copies.{Done, StoppedAt, jobs, copy_repos-Done, copy_repos-StoppedAt}
use skopeo.Sync.Run.Suffix.{dest_suffix-Lacks, scoped_apart}
use skopeo.Options.Warnings.{warn_if_used}
use skopeo.Sync.Run.Success.{Synced, run-Synced}
use skopeo.Tests.OptionTests.{global, image, image_dest, image_ctx}
use skopeo.Tests.World.{
  kinds, references, host, remote, manifests, at_registry, at_dir, name_of, transport_of, named_of,
  path_of, parse_ref,
}

abbrev no_yaml : Text → Result (List (Text × RawRegistry))
no_yaml s = ok []

abbrev ctx : SystemContext kinds
ctx = image_ctx

abbrev policy : Text
policy = lit "default"

abbrev pub opts : SyncOptions
opts = record {
  global = global;
  deprecated_tls_verify = record { tls_verify = record { present = false; value = false } };
  src_image = image;
  dest_image = image_dest;
  retry_opts = record { max_retry = pos 0 };
  remove_signatures = false;
  sign_by_fingerprint = [];
  format = record { present = false; value = [] };
  source = lit "docker";
  destination = lit "dir";
  scoped = false;
  all = false;
}

-- Opens the code of a run, for the tests that compute one.
code : Unit {0}
unfolding run run_with_policy check_transports get_policy_context destroying lit ◌==◌ name_of
    image_system_context get_docker_auth parse_creds split_n2 images_to_copy images_from_docker
    contains images_to_copy_from_repo refs_of_tags dest_system_context copy_repos copy_refs copy_ref
    or_else after_last base clean clean_elements elements join join_elements strip_slashes
    is_not_exist cut drop_prefix has_prefix trim_prefix dest_suffix destination_reference
    make_directory named_of dir_of up_to_last_slash transport_of path_of parse_ref get_image_tags
    warn_if_used
code = tt

sync_run :
    run kinds references host remote no_yaml opts (lit "reg/box" ∷ lit "/out" ∷ []) []
    ≡ (ok tt, lit "destroyed" ∷ lit "/out/box:2" ∷ lit "/out/box:1" ∷ [])
unfolding code
sync_run = refl

run-Synced_example :
    Synced kinds references host remote no_yaml opts
      (lit "reg/box")
      (lit "/out")
      []
      (lit "destroyed" ∷ lit "/out/box:2" ∷ lit "/out/box:1" ∷ [])
run-Synced_example =
    (run-Synced kinds references host remote no_yaml opts (lit "reg/box") (lit "/out") []
        (lit "destroyed" ∷ lit "/out/box:2" ∷ lit "/out/box:1" ∷ [])).0
      sync_run

abbrev options : CopyOptions kinds
options = copy_options kinds references host remote opts ctx ctx []

abbrev repo : RepoDescriptor kinds
repo = record {
  dir_base_path = [];
  image_refs = at_registry (lit "reg/box:1") ∷ at_registry (lit "reg/box:2") ∷ [];
  context = ctx;
}

-- A run of the loops alone: the copies so far are `n`.
abbrev loops : Text → ℕ → List Text → Result ℕ × List Text
loops destination n w =
    copy_repos kinds references host remote background policy opts destination options n (repo ∷ [])
      w

loops_run : loops (lit "/out") 3 [] ≡ (ok 5, lit "/out/box:2" ∷ lit "/out/box:1" ∷ [])
unfolding code
loops_run = refl

copy_repos-Done_example :
    (loops (lit "/out") 3 [] ≡ (ok 5, lit "/out/box:2" ∷ lit "/out/box:1" ∷ [])) ↔ (
      Done kinds references host remote background policy opts
        (lit "/out")
        options
        (jobs (repo ∷ []))
        []
        (lit "/out/box:2" ∷ lit "/out/box:1" ∷ [])
      × (5 ≡ 3 + 2))
copy_repos-Done_example =
    copy_repos-Done kinds references host remote background policy opts (lit "/out") options 3
      (repo ∷ []) [] (lit "/out/box:2" ∷ lit "/out/box:1" ∷ []) 5

abbrev occupied : GoError
occupied = errorf "Refusing to overwrite destination directory %q" (lit "/taken/box:2" ∷ [])

stop_run : loops (lit "/taken") 0 [] ≡ (err occupied, lit "/taken/box:1" ∷ [])
unfolding code
stop_run = refl

copy_repos-StoppedAt_example :
    StoppedAt kinds references host remote background policy opts
      (lit "/taken")
      options
      (jobs (repo ∷ []))
      []
      occupied
      (lit "/taken/box:1" ∷ [])
copy_repos-StoppedAt_example =
    copy_repos-StoppedAt kinds references host remote background policy opts (lit "/taken") options
      0 (repo ∷ []) [] (lit "/taken/box:1" ∷ []) occupied stop_run

names : IsNamed kinds references
unfolding name_of
names = record { docker_name = refl; dir_name = refl }

check_transports_iff_example :
    (check_transports kinds references opts ≡ none) ↔ Allowed (lit "docker") (lit "dir")
check_transports_iff_example = check_transports_iff kinds references names opts

dest_suffix_run :
    dest_suffix kinds references false [] (at_registry (lit "reg/box:1")) ≡ ok (lit "box:1")
unfolding code
dest_suffix_run = refl

dest_suffix-Lacks_example : (lit "box:1" ≡ slash) ⊎ Lacks b'/' (lit "box:1")
dest_suffix-Lacks_example =
    dest_suffix-Lacks kinds references [] (at_registry (lit "reg/box:1")) (lit "box:1")
      dest_suffix_run

docker_transport : (s : Text) → transport_of (at_registry s) ≡ docker
unfolding transport_of
docker_transport s = refl

docker_named : (s : Text) → named_of (at_registry s) ≡ some s
unfolding named_of
docker_named s = refl

box-IsPlain : All IsPlain (elements (lit "reg/box:1"))
unfolding elements lit ◌==◌
box-IsPlain = ((refl, refl, refl), ((refl, refl, refl), tt))

out_not_blank : is_blank (lit "/out") ≡ false
unfolding lit
out_not_blank = refl

lib-IsPlain : All IsPlain (elements (lit "lib/box:1"))
unfolding elements lit ◌==◌
lib-IsPlain = ((refl, refl, refl), ((refl, refl, refl), tt))

reg_ne_lib : lit "reg/box:1" ≢ lit "lib/box:1"
unfolding lit ◌==◌
reg_ne_lib p = ground (arith, ==_iff (lit "reg/box:1") (lit "lib/box:1"))

scoped_suffix : (s : Text) → dest_suffix kinds references true [] (at_registry s) ≡ ok s
unfolding dest_suffix transport_of named_of
scoped_suffix s = refl

scoped_apart_example : join (lit "/out") (lit "reg/box:1") ≢ join (lit "/out") (lit "lib/box:1")
scoped_apart_example =
    scoped_apart kinds references [] [] (lit "/out") (at_registry (lit "reg/box:1"))
      (at_registry (lit "lib/box:1")) (lit "reg/box:1") (lit "lib/box:1") {s = lit "reg/box:1"}
      {s' = lit "lib/box:1"} (docker_transport _) (docker_transport _) (docker_named _)
      (docker_named _) out_not_blank box-IsPlain lib-IsPlain (scoped_suffix _) (scoped_suffix _)
      reg_ne_lib

listed_run :
    images_to_copy kinds references remote host no_yaml (lit "reg/box") (lit "docker") ctx []
    ≡ (ok (repo ∷ []), [])
unfolding code
listed_run = refl

images_to_copy-HasImages_example : All (HasImages kinds) (repo ∷ [])
images_to_copy-HasImages_example =
    images_to_copy-HasImages kinds references remote host no_yaml (lit "reg/box") (lit "docker") ctx
      [] [] (repo ∷ []) listed_run

abbrev cfg : RegistrySyncConfig
cfg = record {
  images = (lit "box", lit "1" ∷ []) ∷ [];
  images_by_tag_regex = (lit "tool", lit "v.*") ∷ [];
  credentials = record { username = []; password = []; identity_token = [] };
  tls_verify = record { skip = undefined };
  cert_dir = [];
}

images_to_copy_from_registry_lem_example :
    (listed : List (RepoDescriptor kinds)) × (by_regex : List (RepoDescriptor kinds)) × (v : List
      Text)
    × (w' : List Text) × (images_to_copy_from_registry kinds references remote
          (lit "reg")
          cfg
          ctx
          []
        ≡ (ok (listed ++ by_regex), w'))
    × Rounds kinds
        (Listed kinds references remote (lit "reg") (context_of kinds cfg ctx))
        cfg.images
        []
        listed
        v
    × Rounds kinds
        (ByRegex kinds references remote (lit "reg") (context_of kinds cfg ctx))
        cfg.images_by_tag_regex
        v
        by_regex
        w'
images_to_copy_from_registry_lem_example =
    images_to_copy_from_registry_lem kinds references remote (lit "reg") cfg ctx []

manifests-IsReadable : IsReadable manifests
unfolding IsReadable
manifests-IsReadable = ((tt, tt), (tt, tt))

images_to_copy_from_dir_lem_example :
    images_to_copy_from_dir kinds references host (lit "/src") [] ≡ (
      outcome_of kinds references
          (lit "/src")
          (collect kinds references (image_dirs manifests (lit "/src") (base (lit "/src"))) []),
      [],
    )
images_to_copy_from_dir_lem_example =
    images_to_copy_from_dir_lem kinds references host (lit "/src") [] [] manifests refl
      manifests-IsReadable

collect_run : collect kinds references (lit "/src/a" ∷ []) [] ≡ (none, at_dir (lit "/src/a") ∷ [])
unfolding parse_ref
collect_run = refl

image_dirs_run : image_dirs manifests (lit "/src") (lit "src") ≡ lit "/src/a" ∷ []
unfolding image_dirs code
image_dirs_run = refl
