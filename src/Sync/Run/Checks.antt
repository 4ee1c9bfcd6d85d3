-- ===== src/Sync/Run/Checks.antt =====
-- Which transports `skopeo sync` accepts.
use skopeo.Prelude.{◌≡◌, ◌≢◌, refl, ◌↔◌, ◌⊎◌, false, none, arith}
use skopeo.Prelude.Texts.{Text, lit, ◌==◌, ==_iff, is_blank}
use skopeo.External.Context.{Kinds}
use skopeo.External.Libraries.{References}
use skopeo.External.Names.{IsNamed}
use skopeo.Sync.Run.{SyncOptions, check_names, check_transports}

-- The pairs of source and destination that skopeo-sync(1) lists, without `dir` to `dir`.
abbrev pub Allowed : Text → Text → Type 0
Allowed source destination =
    ((source ≡ lit "docker") × ((destination ≡ lit "docker") ⊎ (destination ≡ lit "dir")))
    ⊎ ((source ≡ lit "dir") × (destination ≡ lit "docker"))
    ⊎ ((source ≡ lit "yaml") × ((destination ≡ lit "docker") ⊎ (destination ≡ lit "dir")))

docker_ne_dir : lit "docker" ≢ lit "dir"
unfolding lit ◌==◌
docker_ne_dir p = ground (arith, ==_iff (lit "docker") (lit "dir"))

yaml_ne_dir : lit "yaml" ≢ lit "dir"
unfolding lit ◌==◌
yaml_ne_dir p = ground (arith, ==_iff (lit "yaml") (lit "dir"))

not_blank :
    (is_blank (lit "docker") ≡ false)
    × (is_blank (lit "dir") ≡ false)
    × (is_blank (lit "yaml") ≡ false)
unfolding lit
not_blank = (refl, refl, refl)

check_names_iff :
    (source destination : Text)
    → (check_names (lit "docker") (lit "dir") source destination ≡ none)
      ↔ Allowed source destination
unfolding check_names
check_names_iff s d = ground (
  arith,
  ==_iff (lit "docker") s,
  ==_iff (lit "dir") s,
  ==_iff (lit "yaml") s,
  ==_iff (lit "docker") d,
  ==_iff (lit "dir") d,
  ==_iff s d,
  ==_iff s (lit "dir"),
  not_blank,
  docker_ne_dir,
  yaml_ne_dir,
)

module _ (K : Kinds) (R : References K) (named : IsNamed K R) (opts : SyncOptions) where
  -- Where the two transports have their documented names, the checks of `run` pass exactly for the
  -- pairs docker to docker, docker to dir, dir to docker, yaml to docker and yaml to dir.
  pub check_transports_iff :
      (check_transports K R opts ≡ none) ↔ Allowed opts.source opts.destination
  unfolding check_transports
  check_transports_iff =
      rw (named.docker_name, named.dir_name) (check_names_iff opts.source opts.destination)
