-- ===== src/Unshare/Laws.antt =====
-- When the program runs itself anew in a user namespace.
use skopeo.Prelude.{
  ◌≡◌, refl, ap, ◌∙◌, Option, none, some, inl, inr, Bool, true, false, ◌||◌, ◌&&◌, Bool-cases, List,
  [], ◌∷◌, if◌then◌else◌,
}
use skopeo.Prelude.Texts.{Text, lit, ◌==◌}
use skopeo.Go.{ok}
use skopeo.External.Context.{Kinds}
use skopeo.External.Libraries.{References, Transport}
use skopeo.External.Process.{
  Process, Capability, chown, dac_override, fowner, fsetid, mknod, setfcap,
}
use skopeo.Unshare.{
  needed_capabilities, check_capabilities, maybe_reexec, is_storage, reexec_if_necessary_for_images,
}

abbrev has_all : (Capability → Bool) → List Capability → Bool
has_all has [] = true
has_all has (cap ∷ caps) = has cap && has_all has caps

and_six :
    (a b c d e f : Bool)
    → (a && (b && (c && (d && (e && (f && true)))))) ≡ (a && b && c && d && e && f)
and_six false b c d e f = refl
and_six true false c d e f = refl
and_six true true false d e f = refl
and_six true true true false e f = refl
and_six true true true true false f = refl
and_six true true true true true false = refl
and_six true true true true true true = refl

all_six :
    (has : Capability → Bool)
    → has_all has needed_capabilities
      ≡ (has chown && has dac_override && has fowner && has fsetid && has mknod && has setfcap)
all_six has =
    and_six (has chown) (has dac_override) (has fowner) (has fsetid) (has mknod) (has setfcap)

module _ (K : Kinds) (P : Process K) where
  check_capabilities_lem :
      (has : Capability → Bool) (caps : List Capability) (w : K.World)
      → check_capabilities K P has caps w
        ≡ (ok tt, (if has_all has caps then w else P.maybe_reexec_using_user_namespace true w))
  unfolding check_capabilities
  check_capabilities_lem has [] w = refl
  check_capabilities_lem has (cap ∷ caps) w = elim (Bool-cases (has cap)) [
    | inl p ↦ rw p (check_capabilities_lem has caps w)
    | inr p ↦ rw p
  ]

  maybe_reexec_lem :
      (w w' : K.World) (has : Capability → Bool)
      → P.new_pid w ≡ (ok has, w')
      → maybe_reexec K P w ≡ (
        ok tt,
        (if has chown && has dac_override && has fowner && has fsetid && has mknod && has setfcap
            then w'
            else P.maybe_reexec_using_user_namespace true w'),
      )
  unfolding maybe_reexec
  maybe_reexec_lem w w' has e = rw e (
      check_capabilities_lem has needed_capabilities w'
      ∙ ap (λ b. (ok tt, if b then w' else P.maybe_reexec_using_user_namespace true w'))
          (all_six has))

  module _ (R : References K) where
    -- Is this the transport of the images in the local storage?
    abbrev in_storage : Option Transport → Bool
    in_storage none = false
    in_storage (some transport) = R.transport_name transport == lit "containers-storage"

    abbrev pub uses_storage : List Text → Bool
    uses_storage [] = false
    uses_storage (image_name ∷ image_names) =
        in_storage (R.transport_from_image_name image_name) || uses_storage image_names

    is_storage-in_storage :
        (transport : Option Transport) → is_storage K P R transport ≡ in_storage transport
    is_storage-in_storage none = refl
    is_storage-in_storage (some transport) = refl

    reexec_of_storage :
        (image_names : List Text) (w : K.World)
        → reexec_if_necessary_for_images K P R image_names w
          ≡ (if uses_storage image_names then maybe_reexec K P w else (ok tt, w))
    unfolding reexec_if_necessary_for_images
    reexec_of_storage [] w = refl
    reexec_of_storage (image_name ∷ image_names) w =
        let same = is_storage-in_storage (R.transport_from_image_name image_name) in
        elim (Bool-cases (in_storage (R.transport_from_image_name image_name))) [
          | inl p ↦ rw (same, p)
          | inr p ↦ rw (same, p) (reexec_of_storage image_names w)
        ]

    -- Where the capabilities can be read, and given what the process has of them: where one of the
    -- images has the transport containers-storage and one of CAP_CHOWN, CAP_DAC_OVERRIDE, CAP_FOWNER,
    -- CAP_FSETID, CAP_MKNOD and CAP_SETFCAP is missing, the program asks for a user namespace; where
    -- none of the six is missing it only reads them; and where no image has that transport it does
    -- nothing. It gives no error.
    pub reexec_lem :
        (image_names : List Text) (w w' : K.World) (has : Capability → Bool)
        → P.new_pid w ≡ (ok has, w')
        → reexec_if_necessary_for_images K P R image_names w ≡ (
          ok tt,
          (if uses_storage image_names
              then (if has chown
                    && has dac_override
                    && has fowner
                    && has fsetid
                    && has mknod
                    && has setfcap
                  then w'
                  else P.maybe_reexec_using_user_namespace true w')
              else w),
        )
    reexec_lem image_names w w' has e =
        let of_storage = reexec_of_storage image_names w in
        let reexec = maybe_reexec_lem w w' has e in
        elim (Bool-cases (uses_storage image_names)) [
          | inl p ↦ rw (of_storage, p, reexec)
          | inr p ↦ rw (of_storage, p)
        ]
