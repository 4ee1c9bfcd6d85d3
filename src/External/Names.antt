-- ===== src/External/Names.antt =====
-- What the two transports that the program knows are called by their packages.
use skopeo.Prelude.{◌≡◌}
use skopeo.Prelude.Texts.{lit}
use skopeo.External.Context.{Kinds}
use skopeo.External.Libraries.{References, docker, directory}

pub record IsNamed (K : Kinds) (R : References K) : Type 0 where
  pub docker_name : R.transport_name docker ≡ lit "docker"
  pub dir_name : R.transport_name directory ≡ lit "dir"
