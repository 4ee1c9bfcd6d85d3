-- ===== src/Signing/Laws.antt =====
-- What the standalone signing has done when it succeeds.
use skopeo.Prelude.{◌≡◌, ◌↔◌, refl, ◌∙◌, ap, false, [], ◌∷◌}
use skopeo.Prelude.Texts.{Text, is_blank}
use skopeo.Go.{Result, ok, err, errorf_of, Exec, or_wrap}
use skopeo.Go.Laws.{step_ok, then_ok, or_wrap-eq-ok, or_wrap_of_ok, if_ok}
use skopeo.External.Context.{Kinds}
use skopeo.External.Libraries.{Host}
use skopeo.External.Signatures.{Signatures}
use skopeo.Signing.{StandaloneSignOptions, closing_mechanism, sign_with, standalone_sign}

module _ (K : Kinds) (H : Host K) (S : Signatures K) where
  pub closing_mechanism-eq-ok :
      (mech : K.Mechanism) (body : Exec (K.World) (Unit {0})) (w w' : K.World)
      → closing_mechanism K H S mech body w ≡ (ok tt, w')
      → (v : K.World) × (body w ≡ (ok tt, v)) × (S.close_mechanism mech v ≡ w')
  unfolding closing_mechanism
  closing_mechanism-eq-ok mech body w w' h = ended (body w) refl h
    where
      ended :
          (r : Result (Unit {0}) × K.World)
          → body w ≡ r
          → ◌≡◌ {A = Result (Unit {0}) × K.World} (r.0, S.close_mechanism mech r.1) (ok tt, w')
          → (v : K.World) × (body w ≡ (ok tt, v)) × (S.close_mechanism mech v ≡ w')
      ended (ok tt, v) p e = (v, p, ap (λ r. r.1) e)
      ended (err e', v) p e = cc

  pub closing_mechanism_of_ok :
      (mech : K.Mechanism) (body : Exec (K.World) (Unit {0})) (w : K.World) {v w' : K.World}
      → body w ≡ (ok tt, v)
      → S.close_mechanism mech v ≡ w'
      → closing_mechanism K H S mech body w ≡ (ok tt, w')
  unfolding closing_mechanism
  closing_mechanism_of_ok mech body w p q =
      ap (λ r. (r.0, S.close_mechanism mech r.1)) p ∙ ap (λ v. (ok tt, v)) q

  -- What a signing of the manifest in a file does.
  pub record Signed (opts : StandaloneSignOptions)
      (manifest_path docker_reference fingerprint : Text) (w w' : K.World) : Type 0 where
    pub manifest : Text
    pub mech : K.Mechanism
    pub signature : Text
    pub read : K.World
    pub initialized : K.World
    pub signed : K.World
    pub written : K.World
    pub has_output : is_blank opts.output ≡ false
    pub reads : H.read_file manifest_path w ≡ (ok manifest, read)
    pub initializes : S.new_gpg_signing_mechanism read ≡ (ok mech, initialized)
    pub signs :
        S.sign_docker_manifest manifest docker_reference mech fingerprint initialized
        ≡ (ok signature, signed)
    pub writes : H.write_file opts.output signature signed ≡ (ok tt, written)
    pub closes : S.close_mechanism mech written ≡ w'

  sign-Signed :
      (opts : StandaloneSignOptions) (manifest_path docker_reference fingerprint : Text)
      (w w' : K.World)
      → standalone_sign K H S opts (manifest_path ∷ docker_reference ∷ fingerprint ∷ []) w
        ≡ (ok tt, w')
      → Signed opts manifest_path docker_reference fingerprint w w'
  unfolding standalone_sign sign_with
  sign-Signed opts manifest_path docker_reference fingerprint w w' h =
      if_ok (is_blank opts.output) _ _ w h (λ p q. cc)
        λ has_output h1.
          step_ok
            (or_wrap (errorf_of "Error reading %s: %v" (manifest_path ∷ []))
              (H.read_file manifest_path) w)
            _ h1
            λ manifest read reads h2.
              step_ok
                (or_wrap (errorf_of "Error initializing GPG: %v" []) S.new_gpg_signing_mechanism
                  read)
                _ h2
                λ mech initialized initializes h3.
                  let (written, whole, closes) = closing_mechanism-eq-ok mech _ initialized w' h3 in
                  step_ok
                    (or_wrap (errorf_of "Error creating signature: %v" [])
                      (S.sign_docker_manifest manifest docker_reference mech fingerprint)
                      initialized)
                    _ whole
                    λ signature signed signs writes. record {
                      manifest = manifest;
                      mech = mech;
                      signature = signature;
                      read = read;
                      initialized = initialized;
                      signed = signed;
                      written = written;
                      has_output = has_output;
                      reads = or_wrap-eq-ok _ (H.read_file manifest_path) w reads;
                      initializes = or_wrap-eq-ok _ S.new_gpg_signing_mechanism read initializes;
                      signs =
                          or_wrap-eq-ok _
                            (S.sign_docker_manifest manifest docker_reference mech fingerprint)
                            initialized signs;
                      writes = or_wrap-eq-ok _ (H.write_file opts.output signature) signed writes;
                      closes = closes;
                    }

  Signed-sign :
      (opts : StandaloneSignOptions) (manifest_path docker_reference fingerprint : Text)
      (w w' : K.World)
      → Signed opts manifest_path docker_reference fingerprint w w'
      → standalone_sign K H S opts (manifest_path ∷ docker_reference ∷ fingerprint ∷ []) w
        ≡ (ok tt, w')
  unfolding standalone_sign sign_with
  Signed-sign opts manifest_path docker_reference fingerprint w w' s = rw s.has_output (
      then_ok _ _ (or_wrap_of_ok _ (H.read_file manifest_path) w s.reads) (
        then_ok _ _ (or_wrap_of_ok _ S.new_gpg_signing_mechanism s.read s.initializes) (
          closing_mechanism_of_ok s.mech _ s.initialized
            (then_ok _ _
              (or_wrap_of_ok _
                (S.sign_docker_manifest s.manifest docker_reference s.mech fingerprint)
                s.initialized s.signs)
              (or_wrap_of_ok _ (H.write_file opts.output s.signature) s.signed s.writes))
            s.closes)))

  -- A run of `skopeo standalone-sign` on three arguments succeeds exactly when it has an output file,
  -- reads the manifest, signs what it read with the reference and the fingerprint of the arguments,
  -- writes the signature to the output file, and closes the mechanism at the end.
  pub standalone_sign-Signed :
      (opts : StandaloneSignOptions) (manifest_path docker_reference fingerprint : Text)
      (w w' : K.World)
      → (standalone_sign K H S opts (manifest_path ∷ docker_reference ∷ fingerprint ∷ []) w
          ≡ (ok tt, w'))
        ↔ Signed opts manifest_path docker_reference fingerprint w w'
  standalone_sign-Signed opts manifest_path docker_reference fingerprint w w' = (
    sign-Signed opts manifest_path docker_reference fingerprint w w',
    Signed-sign opts manifest_path docker_reference fingerprint w w',
  )
