-- ===== src/Unshare.antt =====
-- cmd/skopeo/unshare_linux.go, and cmd/skopeo/unshare.go for the other systems.
pub mod Laws
use skopeo.Prelude.{Bool, true, false, Option, none, some, List, [], ◌∷◌, if◌then◌else◌}
use skopeo.Prelude.Texts.{Text, lit, ◌==◌}
use skopeo.Go.{Result, ok, err, wrapped, Exec, continue, ◌>>=◌, pure, or_wrap}
use skopeo.External.Context.{Kinds}
use skopeo.External.Libraries.{References, Transport}
use skopeo.External.Process.{
  Process, Capability, chown, dac_override, fowner, fsetid, mknod, setfcap,
}

abbrev pub needed_capabilities : List Capability
needed_capabilities = chown ∷ dac_override ∷ fowner ∷ fsetid ∷ mknod ∷ setfcap ∷ []

module _ (K : Kinds) (P : Process K) where
  -- The loop over the needed capabilities.
  check_capabilities : (Capability → Bool) → List Capability → Exec (K.World) (Unit {0})
  check_capabilities has [] = pure tt
  check_capabilities has (cap ∷ caps) =
      let rest = check_capabilities has caps in
      if has cap then rest else (λ w. (ok tt, P.maybe_reexec_using_user_namespace true w))

  unfoldable pub maybe_reexec : Exec (K.World) (Unit {0})
  unfolding check_capabilities
  maybe_reexec = do
    capabilities ←
        or_wrap (λ e. wrapped e "error reading the current capabilities sets" []) P.new_pid
    check_capabilities capabilities needed_capabilities

  module _ (R : References K) where
    abbrev pub is_storage : Option Transport → Bool
    is_storage none = false
    is_storage (some transport) = R.transport_name transport == lit "containers-storage"

    unfoldable pub reexec_if_necessary_for_images : List Text → Exec (K.World) (Unit {0})
    reexec_if_necessary_for_images [] = pure tt
    reexec_if_necessary_for_images (image_name ∷ image_names) =
        let rest = reexec_if_necessary_for_images image_names in
        if is_storage (R.transport_from_image_name image_name) then maybe_reexec else rest

-- `reexecIfNecessaryForImages` where there are no user namespaces.
unfoldable pub reexec_elsewhere : (K : Kinds) → List Text → Exec (K.World) (Unit {0})
reexec_elsewhere K image_names = pure tt
