-- ===== src/Integration/Environ.antt =====
-- `modifyEnviron` of integration/utils.go.
pub mod Laws
use skopeo.Prelude.{Bool, true, false, not, List, [], ◌∷◌, ◌++◌, if◌then◌else◌}
use skopeo.Prelude.Texts.{Text, has_prefix}

-- The loop, with the part of `env` before the entry as `res`.
kept : Text → List Text → List Text → List Text
kept prefix res [] = res
kept prefix res (e ∷ env) =
    kept prefix (if not (has_prefix e prefix) then res ++ e ∷ [] else res) env

unfoldable pub modify_environ : List Text → Text → Text → List Text
unfolding kept
modify_environ env name value =
    let prefix = name ++ b'=' ∷ [] in kept prefix [] env ++ (prefix ++ value) ∷ []

-- `clusterCmd` of integration/openshift.go: the environment of a command, of that of the process and
-- of a map, in the order of its iteration.
unfoldable pub cluster_environ : List Text → List (Text × Text) → List Text
cluster_environ environ [] = environ
cluster_environ environ ((key, value) ∷ env) =
    cluster_environ (modify_environ environ key value) env
