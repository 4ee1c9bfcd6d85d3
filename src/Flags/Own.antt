-- ===== src/Flags/Own.antt =====
-- From the own flags of `skopeo copy` and `skopeo sync` to the options that their `run` reads.
use skopeo.Prelude.{◌≡◌, refl, Bool, false, List, []}
use skopeo.Prelude.Int.{ℤ, pos}
use skopeo.Prelude.Texts.{Text, lit, ◌==◌}
use skopeo.Flag.{OptionalString, set_string}
use skopeo.Options.{GlobalOptions}
use skopeo.Copy.{CopyCmdOptions}
use skopeo.Sync.Run.{SyncOptions}
use skopeo.Flags.{Values, optional_bool_flag}
use skopeo.Flags.Cells.{Cells, unset_string}
use skopeo.Flags.Starts.{new_copy_cells, load_copy, new_sync_cells, load_sync}
use skopeo.Flags.Commands.{copy_flags, sync_flags}
use skopeo.Flags.Pairs.{PairCommand, copy, sync, OptionsOf, flags_of, new_cells_of}
use skopeo.Flags.Given.{Given, after, Given-after}

module _ (V : Values) where
  abbrev change_text : Text → Text → Text
  change_text v s = (V.set_string_var v s).1

  abbrev change_truth : Text → Bool → Bool
  change_truth v b = (V.set_bool_var v b).1

  abbrev change_int : Text → ℤ → ℤ
  change_int v n = (V.set_int_var v n).1

  abbrev change_texts : Text → List Text → List Text
  change_texts v l = (V.set_string_slice_var v l).1

  abbrev change_ints : Text → List ℤ → List ℤ
  change_ints v l = (V.set_int_slice_var v l).1

  abbrev change_string : Text → OptionalString → OptionalString
  change_string v s = (set_string v s).1

  module _ (settings : List (Text × Text)) where
    -- A field holds the changes by the settings of one flag, in order.
    abbrev pub Holds : {A : Type 0} → A → (Text → A → A) → Text → A → Type 0
    Holds a change name start = a ≡ after (λ n. n == name) change settings start

    pub record CopyOwn (opts : CopyCmdOptions) : Type 0 where
      pub additional_tags : Holds opts.additional_tags change_texts (lit "additional-tag") []
      pub quiet : Holds opts.quiet change_truth (lit "quiet") false
      pub all : Holds opts.all change_truth (lit "all") false
      pub remove_signatures :
          Holds opts.remove_signatures change_truth (lit "remove-signatures") false
      pub sign_by : Holds opts.sign_by_fingerprint change_text (lit "sign-by") []
      pub digest_file : Holds opts.digest_file change_text (lit "digestfile") []
      pub format : Holds opts.format change_string (lit "format") unset_string
      pub encryption_keys : Holds opts.encryption_keys change_texts (lit "encryption-key") []
      pub encrypt_layer : Holds opts.encrypt_layer change_ints (lit "encrypt-layer") []
      pub decryption_keys : Holds opts.decryption_keys change_texts (lit "decryption-key") []
      pub retry_times : Holds opts.retry_opts.max_retry change_int (lit "retry-times") (pos 0)

    pub record SyncOwn (opts : SyncOptions) : Type 0 where
      pub remove_signatures :
          Holds opts.remove_signatures change_truth (lit "remove-signatures") false
      pub sign_by : Holds opts.sign_by_fingerprint change_text (lit "sign-by") []
      pub format : Holds opts.format change_string (lit "format") unset_string
      pub source : Holds opts.source change_text (lit "src") []
      pub destination : Holds opts.destination change_text (lit "dest") []
      pub scoped : Holds opts.scoped change_truth (lit "scoped") false
      pub all : Holds opts.all change_truth (lit "all") false
      pub retry_times : Holds opts.retry_opts.max_retry change_int (lit "retry-times") (pos 0)

    abbrev pub OwnOf : (c : PairCommand) → Cells (OptionsOf c) → Type 0
    OwnOf copy cells = CopyOwn (load_copy cells)
    OwnOf sync cells = SyncOwn (load_sync cells)

  module _ (global : GlobalOptions) (auth_file : Text) {settings : List (Text × Text)} where
    copy_own :
        {cells : Cells CopyCmdOptions}
        → Given (copy_flags V) settings (new_copy_cells global auth_file) cells
        → CopyOwn settings (load_copy cells)
    unfolding copy_flags optional_bool_flag lit ◌==◌ new_copy_cells load_copy
    copy_own given = record {
      additional_tags =
          Given-after (λ n. n == lit "additional-tag") change_texts (λ c. c.options.additional_tags)
            refl given;
      quiet = Given-after (λ n. n == lit "quiet") change_truth (λ c. c.options.quiet) refl given;
      all = Given-after (λ n. n == lit "all") change_truth (λ c. c.options.all) refl given;
      remove_signatures =
          Given-after (λ n. n == lit "remove-signatures") change_truth
            (λ c. c.options.remove_signatures) refl given;
      sign_by =
          Given-after (λ n. n == lit "sign-by") change_text (λ c. c.options.sign_by_fingerprint)
            refl given;
      digest_file =
          Given-after (λ n. n == lit "digestfile") change_text (λ c. c.options.digest_file) refl
            given;
      format =
          Given-after (λ n. n == lit "format") change_string (λ c. c.options.format) refl given;
      encryption_keys =
          Given-after (λ n. n == lit "encryption-key") change_texts (λ c. c.options.encryption_keys)
            refl given;
      encrypt_layer =
          Given-after (λ n. n == lit "encrypt-layer") change_ints (λ c. c.options.encrypt_layer)
            refl given;
      decryption_keys =
          Given-after (λ n. n == lit "decryption-key") change_texts (λ c. c.options.decryption_keys)
            refl given;
      retry_times =
          Given-after (λ n. n == lit "retry-times") change_int (λ c. c.options.retry_opts.max_retry)
            refl given;
    }

    sync_own :
        {cells : Cells SyncOptions}
        → Given (sync_flags V) settings (new_sync_cells global auth_file) cells
        → SyncOwn settings (load_sync cells)
    unfolding sync_flags optional_bool_flag lit ◌==◌ new_sync_cells load_sync
    sync_own given = record {
      remove_signatures =
          Given-after (λ n. n == lit "remove-signatures") change_truth
            (λ c. c.options.remove_signatures) refl given;
      sign_by =
          Given-after (λ n. n == lit "sign-by") change_text (λ c. c.options.sign_by_fingerprint)
            refl given;
      format =
          Given-after (λ n. n == lit "format") change_string (λ c. c.options.format) refl given;
      source = Given-after (λ n. n == lit "src") change_text (λ c. c.options.source) refl given;
      destination =
          Given-after (λ n. n == lit "dest") change_text (λ c. c.options.destination) refl given;
      scoped = Given-after (λ n. n == lit "scoped") change_truth (λ c. c.options.scoped) refl given;
      all = Given-after (λ n. n == lit "all") change_truth (λ c. c.options.all) refl given;
      retry_times =
          Given-after (λ n. n == lit "retry-times") change_int (λ c. c.options.retry_opts.max_retry)
            refl given;
    }

    -- After the flags `settings` of `skopeo copy` or `skopeo sync`, each option of the command's own
    -- that `run` reads holds what the settings of its flag have made of it, in their order, and nothing
    -- else: for both, the signatures, the format, all images of a list, and the retries; for copy also
    -- the tags, the quiet mode, the digest file, the keys and the layers; for sync also the transports
    -- and the scope.
    pub own_flags :
        (c : PairCommand) {cells : Cells (OptionsOf c)}
        → Given (flags_of V c) settings (new_cells_of c global auth_file) cells
        → OwnOf settings c cells
    own_flags copy given = copy_own given
    own_flags sync given = sync_own given
