-- ===== src/Copy/Laws.antt =====
-- The settings of encryption of a copy.
use skopeo.Prelude.{
  ◌↔◌, not, ◌&&◌, ◌||◌, ◌≡◌, refl, Bool, true, false, Option, none, some, List, [], ◌∷◌,
}
use skopeo.Go.{ok, errorf_of, or_wrap}
use skopeo.Prelude.Int.{ℤ}
use skopeo.Prelude.Lists.{is_empty}
use skopeo.Go.Laws.{then_ok, or_wrap_of_ok, step_ok, or_wrap-eq-ok, reject_if_ok, if_ok}
use skopeo.External.Context.{Kinds}
use skopeo.External.Contents.{Crypto}
use skopeo.Copy.{
  encrypt_settings, decrypt_settings, CopyCmdOptions, CryptoSettings, is_empty, crypto_settings,
}

or_of_and : (a b : Bool) → (not a && not b) ≡ false → (a || b) ≡ true
or_of_and true b h = refl
or_of_and false true h = refl
or_of_and false false h = cc

or_not_of_and : (a b : Bool) → (not a && b) ≡ false → (a || not b) ≡ true
or_not_of_and true b h = refl
or_not_of_and false true h = cc
or_not_of_and false false h = refl

and_of_or : (a b : Bool) → (a || b) ≡ true → (not a && not b) ≡ false
and_of_or true b h = refl
and_of_or false true h = refl
and_of_or false false h = cc

and_not_of_or : (a b : Bool) → (a || not b) ≡ true → (not a && b) ≡ false
and_not_of_or true b h = refl
and_not_of_or false true h = cc
and_not_of_or false false h = refl

module _ (K : Kinds) (C : Crypto K) (opts : CopyCmdOptions) where
  -- The layers and the keys of the encryption: none without keys.
  pub data Encrypted : Option (List ℤ) → Option (K.EncryptConfig) → K.World → K.World → Type 0 where
    no_encryption : {w : K.World} → is_empty opts.encryption_keys ≡ true → Encrypted none none w w
    encryption :
        {w w' : K.World} (ecc : K.CryptoConfig)
        → is_empty opts.encryption_keys ≡ false
        → C.create_crypto_config opts.encryption_keys [] w ≡ (ok ecc, w')
        → Encrypted
            (some opts.encrypt_layer)
            (C.encrypt_config (C.combine_crypto_configs (ecc ∷ [])))
            w
            w'

  pub data Decrypted : Option (K.DecryptConfig) → K.World → K.World → Type 0 where
    no_decryption : {w : K.World} → is_empty opts.decryption_keys ≡ true → Decrypted none w w
    decryption :
        {w w' : K.World} (dcc : K.CryptoConfig)
        → is_empty opts.decryption_keys ≡ false
        → C.create_crypto_config [] opts.decryption_keys w ≡ (ok dcc, w')
        → Decrypted (C.decrypt_config (C.combine_crypto_configs (dcc ∷ []))) w w'

  encrypt_settings-Encrypted :
      (w w' : K.World) (enc : Option (List ℤ) × Option (K.EncryptConfig))
      → encrypt_settings K C opts w ≡ (ok enc, w')
      → Encrypted enc.0 enc.1 w w'
  unfolding encrypt_settings
  encrypt_settings-Encrypted w w' enc h =
      if_ok (is_empty opts.encryption_keys) _ _ w h
        (λ p q.
          let of_none : enc ≡ (none, none) = cc in
          let same : w ≡ w' = cc in rw (of_none, same) (no_encryption p))
        λ p q.
          step_ok
            (or_wrap (errorf_of "Invalid encryption keys: %v" [])
              (C.create_crypto_config opts.encryption_keys []) w)
            _ q
            λ ecc v made e.
              let created =
                or_wrap-eq-ok _ (C.create_crypto_config opts.encryption_keys []) w made in
              let of_key : enc ≡ (
                some opts.encrypt_layer,
                C.encrypt_config (C.combine_crypto_configs (ecc ∷ [])),
              ) =
                cc in
              let same : w' ≡ v = cc in rw (of_key, same) (encryption ecc p created)

  decrypt_settings-Decrypted :
      (w w' : K.World) (dec : Option (K.DecryptConfig))
      → decrypt_settings K C opts w ≡ (ok dec, w')
      → Decrypted dec w w'
  unfolding decrypt_settings
  decrypt_settings-Decrypted w w' dec h =
      if_ok (is_empty opts.decryption_keys) _ _ w h
        (λ p q.
          let of_none : dec ≡ none = cc in
          let same : w ≡ w' = cc in rw (of_none, same) (no_decryption p))
        λ p q.
          step_ok
            (or_wrap (errorf_of "Invalid decryption keys: %v" [])
              (C.create_crypto_config [] opts.decryption_keys) w)
            _ q
            λ dcc v made e.
              let created =
                or_wrap-eq-ok _ (C.create_crypto_config [] opts.decryption_keys) w made in
              let of_key : dec ≡ C.decrypt_config (C.combine_crypto_configs (dcc ∷ [])) = cc in
              let same : w' ≡ v = cc in rw (of_key, same) (decryption dcc p created)

  -- The settings that a copy from world `w` makes of the keys, up to world `w'`.
  pub record Settled (settings : CryptoSettings K) (w w' : K.World) : Type 0 where
    pub encrypted : K.World
    pub one_kind_of_keys : (is_empty opts.encryption_keys || is_empty opts.decryption_keys) ≡ true
    pub layers_with_keys :
        (is_empty opts.encrypt_layer || not (is_empty opts.encryption_keys)) ≡ true
    pub encrypts : Encrypted settings.enc_layers settings.enc_config w encrypted
    pub decrypts : Decrypted settings.dec_config encrypted w'

  settings-Settled :
      (settings : CryptoSettings K) (w w' : K.World)
      → crypto_settings K C opts w ≡ (ok settings, w')
      → Settled settings w w'
  unfolding crypto_settings
  settings-Settled settings w w' h =
      reject_if_ok (not (is_empty opts.encryption_keys) && not (is_empty opts.decryption_keys)) _ _
        w h
        λ p h1.
          reject_if_ok (not (is_empty opts.encrypt_layer) && is_empty opts.encryption_keys) _ _ w h1
            λ q h2. step_ok (encrypt_settings K C opts w) _ h2 λ enc v made_enc h3.
              step_ok (decrypt_settings K C opts v) _ h3 λ dec v' made_dec h4.
                let same : settings
                    ≡ (record { enc_layers = enc.0; enc_config = enc.1; dec_config = dec }) =
                  cc in
                let same_world : w' ≡ v' = cc in
                rw (same, same_world)
                  (record {
                    encrypted = v;
                    one_kind_of_keys = or_of_and (is_empty opts.encryption_keys) _ p;
                    layers_with_keys = or_not_of_and (is_empty opts.encrypt_layer) _ q;
                    encrypts = encrypt_settings-Encrypted w v enc made_enc;
                    decrypts = decrypt_settings-Decrypted v v' dec made_dec;
                  })

  encrypts_of :
      {layers : Option (List ℤ)} {config : Option (K.EncryptConfig)} {w w' : K.World}
      → Encrypted layers config w w'
      → encrypt_settings K C opts w ≡ (ok (layers, config), w')
  unfolding encrypt_settings
  encrypts_of (no_encryption p) = rw p refl
  encrypts_of (encryption {w} ecc p made) = rw p (
      then_ok (or_wrap _ (C.create_crypto_config opts.encryption_keys []) w) _
        (or_wrap_of_ok _ (C.create_crypto_config opts.encryption_keys []) w made) refl)

  decrypts_of :
      {config : Option (K.DecryptConfig)} {w w' : K.World}
      → Decrypted config w w'
      → decrypt_settings K C opts w ≡ (ok config, w')
  unfolding decrypt_settings
  decrypts_of (no_decryption p) = rw p refl
  decrypts_of (decryption {w} dcc p made) = rw p (
      then_ok (or_wrap _ (C.create_crypto_config [] opts.decryption_keys) w) _
        (or_wrap_of_ok _ (C.create_crypto_config [] opts.decryption_keys) w made) refl)

  settings_of_Settled :
      (settings : CryptoSettings K) (w w' : K.World)
      → Settled settings w w'
      → crypto_settings K C opts w ≡ (ok settings, w')
  unfolding crypto_settings
  settings_of_Settled settings w w' s =
      rw
        (
          and_of_or (is_empty opts.encryption_keys) _ s.one_kind_of_keys,
          and_not_of_or (is_empty opts.encrypt_layer) _ s.layers_with_keys,
        )
        (then_ok (encrypt_settings K C opts w) _ (encrypts_of s.encrypts)
          (then_ok (decrypt_settings K C opts s.encrypted) _ (decrypts_of s.decrypts) refl))

  -- Settings are made exactly where there are not both kinds of keys, and layers only with keys for
  -- them. The encryption's are then those of its keys and layers, or none without keys; the same
  -- holds of the decryption's.
  pub crypto_settings-Settled :
      (settings : CryptoSettings K) (w w' : K.World)
      → (crypto_settings K C opts w ≡ (ok settings, w')) ↔ Settled settings w w'
  crypto_settings-Settled settings w w' =
      (settings-Settled settings w w', settings_of_Settled settings w w')
