-- ===== src/ListTags/Success.antt =====
-- What a run of `skopeo list-tags` that succeeds has done.
use skopeo.Prelude.{
  ◌≡◌, ◌↔◌, refl, arith, Bool-cases, inl, inr, Option, none, some, List, [], ◌∷◌, ◌++◌,
}
use skopeo.Prelude.Texts.{Text, ◌==◌, ==-refl, eq_of_==}
use skopeo.Go.{Result, ok, Exec}
use skopeo.Go.Laws.{step_ok, lift_ok, then_ok, then_lift}
use skopeo.External.Context.{Kinds, SystemContext}
use skopeo.External.Libraries.{References, Host, Remote, Transport, docker}
use skopeo.External.Names.{IsNamed}
use skopeo.Options.{command_timeout_context, image_system_context}
use skopeo.ListTags.{
  TagListOutput, TagsOptions, parse_docker_repository_reference, list_docker_tags, check_transport,
  run,
}
use skopeo.ListTags.Laws.{NamesRepository, parse_docker_repository_reference_iff}

module _ (K : Kinds) (R : References K) (H : Host K) (N : Remote K)
    (marshal_indent : TagListOutput → Result Text) (opts : TagsOptions) (arg : Text) where
  abbrev pub listing_of : SystemContext K → K.ImageReference → Exec (K.World) (Text × List Text)
  listing_of sys ref =
      N.retry_if_necessary (Text × List Text) (command_timeout_context opts.global) opts.retry_opts
        (list_docker_tags K R H N (command_timeout_context opts.global) sys ref)

  pub record TagsListed (w w' : K.World) : Type 0 where
    pub sys : SystemContext K
    pub ref : K.ImageReference
    pub listing : Text × List Text
    pub out : Text
    pub listed : K.World
    pub reads : image_system_context K opts.image ≡ ok sys
    pub transport : Transport
    pub finds : R.transport_from_image_name arg ≡ some transport
    pub is_docker : R.transport_name transport ≡ R.transport_name docker
    pub names : NamesRepository K R arg ref
    pub lists : listing_of sys ref w ≡ (ok listing, listed)
    pub formats : marshal_indent (record { repository = listing.0; tags = listing.1 }) ≡ ok out
    pub writes : H.write_stdout (out ++ b'\n' ∷ []) listed ≡ (ok tt, w')

  check_transport_ok :
      (t : Option Transport) (w w' : K.World)
      → check_transport K R H N arg t w ≡ (ok tt, w')
      → (transport : Transport) × (t ≡ some transport)
        × (R.transport_name transport ≡ R.transport_name docker)
        × (w ≡ w')
  unfolding check_transport
  check_transport_ok none w w' h = cc
  check_transport_ok (some t) w w' h =
      let same = eq_of_== (R.transport_name t) (R.transport_name docker) in
      elim (Bool-cases (R.transport_name t == R.transport_name docker)) [
        | inl p ↦ (t, refl, same p, ground arith)
        | inr p ↦ ground arith
      ]

  check_transport_of_name :
      (transport : Transport) (w : K.World)
      → R.transport_name transport ≡ R.transport_name docker
      → check_transport K R H N arg (some transport) w ≡ (ok tt, w)
  unfolding check_transport
  check_transport_of_name transport w p = rw (p, ==-refl (R.transport_name docker)) refl

  run_through-TagsListed :
      (named : IsNamed K R) (w w' : K.World)
      → run K R H N marshal_indent opts (arg ∷ []) w ≡ (ok tt, w')
      → TagsListed w w'
  unfolding run
  run_through-TagsListed named w w' h =
      lift_ok (image_system_context K opts.image) _ w h λ sys reads h1.
        step_ok (check_transport K R H N arg (R.transport_from_image_name arg) w) _ h1
          λ done v checks h2.
            lift_ok (parse_docker_repository_reference K R arg) _ v h2 λ ref parses h3.
              step_ok (listing_of sys ref v) _ h3 λ listing listed lists h4.
                lift_ok (marshal_indent (record { repository = listing.0; tags = listing.1 })) _
                  listed h4
                  λ out formats writes.
                    let (transport, finds, is_docker, still) =
                      check_transport_ok (R.transport_from_image_name arg) w v checks in
                    record {
                      sys = sys;
                      ref = ref;
                      listing = listing;
                      out = out;
                      listed = listed;
                      reads = reads;
                      names = (parse_docker_repository_reference_iff K R named arg ref).0 parses;
                      transport = transport;
                      finds = finds;
                      is_docker = is_docker;
                      lists = rw still lists;
                      formats = formats;
                      writes = writes;
                    }

  run_of_TagsListed :
      (named : IsNamed K R) (w w' : K.World)
      → TagsListed w w'
      → run K R H N marshal_indent opts (arg ∷ []) w ≡ (ok tt, w')
  unfolding run
  run_of_TagsListed named w w' l = then_lift (image_system_context K opts.image) _ w l.reads (
      then_ok (check_transport K R H N arg (R.transport_from_image_name arg) w) _
        (rw l.finds (check_transport_of_name l.transport w l.is_docker))
        (then_lift (parse_docker_repository_reference K R arg) _ w
          ((parse_docker_repository_reference_iff K R named arg l.ref).1 l.names)
          (then_ok (listing_of l.sys l.ref w) _ l.lists (
            then_lift (marshal_indent (record { repository = l.listing.0; tags = l.listing.1 })) _
              l.listed l.formats l.writes))))

  -- Where the transports have their documented names, a run of `skopeo list-tags` on one argument
  -- succeeds exactly when the argument is of the transport docker, and is `docker://` and the name of
  -- a repository with no tag and no digest; it lists the tags of that repository under the retries,
  -- and writes to the output the JSON text of the repository and its tags with an end of line; and
  -- nothing else is done.
  pub run-TagsListed :
      (named : IsNamed K R) (w w' : K.World)
      → (run K R H N marshal_indent opts (arg ∷ []) w ≡ (ok tt, w')) ↔ TagsListed w w'
  run-TagsListed named w w' = (run_through-TagsListed named w w', run_of_TagsListed named w w')
