-- ===== src/Action.antt =====
-- `commandAction` of cmd/skopeo/utils.go: from a command's `run` to what cobra calls.
pub mod Laws
use skopeo.Prelude.{List}
use skopeo.Prelude.Texts.{Text}
use skopeo.Go.{Result, ok, err, GoError, should_display_usage, Exec}
use skopeo.External.Context.{Kinds}
use skopeo.External.Process.{Process}

module _ (K : Kinds) (P : Process K) where
  unfoldable pub after_handler : Result (Unit {0}) × K.World → Result (Unit {0}) × K.World
  after_handler (err (should_display_usage e), w) = (err (should_display_usage e), P.show_help w)
  after_handler (r, w) = (r, w)

  unfoldable pub command_action :
      (List Text → Exec (K.World) (Unit {0})) → List Text → Exec (K.World) (Unit {0})
  command_action handler args w = after_handler (handler args w)
