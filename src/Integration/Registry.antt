-- ===== src/Integration/Registry.antt =====
-- integration/registry.go: a registry for the tests.
pub mod Laws
use skopeo.Prelude.{
  ℕ, zero, suc, Bool, true, false, not, ◌&&◌, Option, none, some, List, [], ◌∷◌, ◌++◌, eqb,
  if◌then◌else◌,
}
use skopeo.Prelude.Texts.{Text, lit}
use skopeo.Go.{
  GoError, Result, ok, err, errorf, Exec, continue, ◌>>=◌, ◌>>◌, pure, fail, lift, reject_if,
  is_not_exist,
}
use skopeo.Go.Path.{join}
use skopeo.External.Lab.{Lab}
use skopeo.Integration.Checks.{consume_and_log_outputs}

pub record TestRegistryV2 (L : Lab) : Type 0 where
  pub cmd : L.Cmd
  pub url : Text
  pub dir : Text
  pub username : Text
  pub password : Text
  pub email : Text

-- The text of the configuration: `fmt.Sprintf(template, tmp, url, htpasswd)`.
abbrev config_text : Text → Text → Text → Text
config_text tmp url htpasswd =
    lit "version: 0.1\nloglevel: debug\nstorage:\n    filesystem:\n        rootdirectory: "
    ++ tmp
    ++ lit "\n    delete:\n        enabled: true\nhttp:\n    addr: "
    ++ url
    ++ lit "\n"
    ++ htpasswd

-- The variables `htpasswd`, `username`, `password` and `email`.
record Account : Type 0 where
  htpasswd : Text
  username : Text
  password : Text
  email : Text

module _ (L : Lab) where
  -- The part for `auth`.
  account : Bool → Text → Exec (L.World) Account
  account false tmp = pure (record { htpasswd = []; username = []; password = []; email = [] })
  account true tmp = do
    let htpasswd_path = join tmp (lit "htpasswd")
    L.write_file htpasswd_path
        (lit "testuser:$2y$05$sBsSqk0OpSD1uTZkHXc4FeJ0Z70wLQdAX/82UiHuQOKbNbBrzs63m")
    pure (record {
      htpasswd =
          lit "auth:\n    htpasswd:\n        realm: basic-realm\n        path: "
          ++ htpasswd_path
          ++ lit "\n";
      username = lit "testuser";
      password = lit "testpassword";
      email = lit "test@test.org";
    })

  -- `if err != nil { os.RemoveAll(tmp); return nil, err }`. A program that is not there skips the
  -- test, which is an error here too.
  removing : {A : Type 0} → Text → Exec (L.World) A → Exec (L.World) A
  removing tmp m w = let (r, w') = m w in (r, elim r [ ok _ ↦ w' | err _ ↦ L.remove_all tmp w' ])

  unfoldable pub new_test_registry_v2_at : Text → Bool → Bool → Exec (L.World) (TestRegistryV2 L)
  unfolding account removing
  new_test_registry_v2_at url auth schema1 = do
    tmp ← L.temp_dir [] (lit "registry-test-")
    who ← account auth tmp
    let conf_path = join tmp (lit "config.yaml")
    L.create conf_path
    removing tmp (L.print_to conf_path (config_text tmp url who.htpasswd))
    let binary = if schema1 then lit "registry-v2-schema1" else lit "registry-v2"
    let cmd = L.command none none binary (conf_path ∷ [])
    consume_and_log_outputs L cmd
    removing tmp (L.start cmd)
    pure (record {
      cmd = cmd;
      url = url;
      dir = tmp;
      username = who.username;
      password = who.password;
      email = who.email;
    })

  -- 200 and 401 are http.StatusOK and http.StatusUnauthorized.
  unfoldable pub ping : TestRegistryV2 L → Exec (L.World) (Unit {0})
  ping t = do
    status ← L.http_get (lit "http://" ++ t.url ++ lit "/v2/")
    reject_if (not (eqb status 200) && not (eqb status 401))
        (errorf "registry ping replied with an unexpected status code %d" [])

  -- `if err == nil { break }`, and the rest of the round with what follows it
  abbrev pub or_again :
      Result (Unit {0}) × L.World
      → (GoError → Exec (L.World) (Unit {0}))
      → Result (Unit {0}) × L.World
  or_again (ok a, w) again = (ok a, w)
  or_again (err e, w) again = again e w

  -- The loop of `setupRegistryV2At`, with the rounds that are left and `err`.
  unfoldable pub ping_loop : TestRegistryV2 L → ℕ → Result (Unit {0}) → Exec (L.World) (Unit {0})
  ping_loop reg zero last w = (last, w)
  ping_loop reg (suc rounds) last w =
      or_again (ping reg w) (λ e w'. ping_loop reg rounds (err e) (L.sleep 100 w'))

  abbrev pub or_fatal : {A : Type 0} → A → Result (Unit {0}) × L.World → Result A × L.World
  or_fatal a (ok _, w) = (ok a, w)
  or_fatal a (err e, w) =
      (err (errorf "Timeout waiting for test registry to become available" []), w)

  unfoldable pub setup_registry_v2_at : Text → Bool → Bool → Exec (L.World) (TestRegistryV2 L)
  setup_registry_v2_at url auth schema1 = do
    reg ← new_test_registry_v2_at url auth schema1
    λ w. or_fatal reg (ping_loop reg 50 (ok tt) w)

  unfoldable pub close : TestRegistryV2 L → L.World → L.World
  close t w = L.remove_all t.dir (L.kill t.cmd w)
