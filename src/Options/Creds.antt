-- ===== src/Options/Creds.antt =====
-- `parseCreds` and `getDockerAuth` of cmd/skopeo/utils.go.
pub mod Laws
use skopeo.Prelude.{List, [], ◌∷◌, if◌then◌else◌}
use skopeo.Prelude.Texts.{Text, split_n2, is_blank}
use skopeo.Go.{Result, ok, err, errorf}
use skopeo.External.Context.{DockerAuthConfig}

-- The code reads `up[0]` and `up[1]`; `split_n2` never gives another number of parts, for which the
-- code would stop at an index out of range.
creds_of_parts : List Text → Result (Text × Text)
creds_of_parts (user ∷ []) = ok (user, [])
creds_of_parts (user ∷ password ∷ _) =
    if is_blank user then err (errorf "username can't be empty" []) else ok (user, password)
creds_of_parts [] = err (errorf "index out of range" [])

unfoldable pub parse_creds : Text → Result (Text × Text)
unfolding creds_of_parts
parse_creds creds =
    if is_blank creds
    then err (errorf "credentials can't be empty" [])
    else creds_of_parts (split_n2 creds b':')

abbrev auth_of : Result (Text × Text) → Result DockerAuthConfig
auth_of (err e) = err e
auth_of (ok (username, password)) =
    ok (record { username = username; password = password; identity_token = [] })

unfoldable pub get_docker_auth : Text → Result DockerAuthConfig
get_docker_auth creds = auth_of (parse_creds creds)
