-- ===== src/Action/Laws.antt =====
-- A command with a wrong number of arguments.
use skopeo.Prelude.{◌≡◌, refl, ◌≢◌, List, [], ◌∷◌, arith}
use skopeo.Prelude.Lists.{length}
use skopeo.Prelude.Texts.{Text}
use skopeo.Go.{Result, err, errorf, should_display_usage}
use skopeo.External.Context.{Kinds}
use skopeo.External.Contents.{Crypto, Digests}
use skopeo.External.Libraries.{References, Host, Remote}
use skopeo.External.Process.{Process}
use skopeo.Action.{command_action, after_handler}
use skopeo.Copy as Copies
use skopeo.Copy.{CopyCmdOptions}
use skopeo.Sync.Config.{RawRegistry}
use skopeo.Sync.Run as Syncs
use skopeo.Sync.Run.{SyncOptions}

module _ (K : Kinds) (P : Process K) (R : References K) (H : Host K) (N : Remote K) (D : Digests K)
    (C : Crypto K) (parse_yaml : Text → Result (List (Text × RawRegistry))) where
  -- On any number of arguments but two, `skopeo copy` and `skopeo sync` do nothing but show the help,
  -- and fail.
  pub command_action_of_two :
      (copy_opts : CopyCmdOptions) (sync_opts : SyncOptions) (args : List Text) (w : K.World)
      → length args ≢ 2
      → (command_action K P (Copies.run K R H N D P C copy_opts) args w ≡ (
        err (should_display_usage (errorf "Exactly two arguments expected" [])),
        P.show_help w,
      ))
        × (command_action K P (Syncs.run K R H N parse_yaml sync_opts) args w ≡ (
          err (should_display_usage (errorf "Exactly two arguments expected" [])),
          P.show_help w,
        ))
  unfolding command_action after_handler Copies.run Syncs.run
  command_action_of_two copy_opts sync_opts [] w h = (refl, refl)
  command_action_of_two copy_opts sync_opts (a ∷ []) w h = (refl, refl)
  command_action_of_two copy_opts sync_opts (a ∷ b ∷ []) w h = ground arith
  command_action_of_two copy_opts sync_opts (a ∷ b ∷ c ∷ args) w h = (refl, refl)
