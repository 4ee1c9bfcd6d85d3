-- ===== src/Tests/FlagTests.antt =====
-- Values of flags, and flags that are given to `skopeo copy`.
use skopeo.Prelude.{◌≡◌, refl, inl, ◌^◌, ltb, leb, Bool, true, false, List, [], ◌∷◌, arith}
use skopeo.Prelude.Int.{pos, negsuc}
use skopeo.Prelude.Texts.{Text, lit, ◌==◌, has_prefix}
use skopeo.Go.{GoError, ok, err}
use skopeo.Go.Strconv.{negate, IsInt64, syntax, range, value, bad, parse_int}
use skopeo.Go.Strconv.Numerals.{Numeral, prefixed, hexadecimal, small_x}
use skopeo.Flag.{OptionalBool, OptionalInt, set_bool, string_of_bool, set_int, string_of_int}
use skopeo.Flag.Laws.{round_trips, set_or_range, set_int_lem}
use skopeo.External.Context.{SystemContext}
use skopeo.Options.{with_token, image_base_context, image_system_context, dest_system_context}
use skopeo.Options.Laws.{skip_of_first}
use skopeo.Copy.{CopyCmdOptions}
use skopeo.Sync.Run.{SyncOptions}
use skopeo.Delete.{DeleteOptions}
use skopeo.Flags.{Values, optional_bool_flag}
use skopeo.Flags.Cells.{Cells, unset_bool}
use skopeo.Flags.Starts.{
  load_copy, new_copy_cells, new_sync_cells, load_sync, new_delete_cells, load_delete,
}
use skopeo.Flags.Commands.{copy_flags, sync_flags, delete_flags}
use skopeo.Flags.Given.{here, there, Given, all_given, give}
use skopeo.Flags.Pairs as Pairs
use skopeo.Flags.Pairs.{pair_tls}
use skopeo.Flags.Own.{SyncOwn, own_flags}
use skopeo.Flags.Single.{delete}
use skopeo.Flags.Single.Context.{IsOf, single_context}
use skopeo.Flags.Apart.{source, AllOf, pair_apart}
use skopeo.Tests.World.{kinds}
use skopeo.Tests.OptionTests.{global}

hexadecimal_run : parse_int (lit "0x1f") ≡ value (pos 31)
unfolding parse_int lit skopeo.Go.Strconv.parse_uint
hexadecimal_run = refl

octal : parse_int (lit "017") ≡ value (pos 15)
unfolding parse_int lit skopeo.Go.Strconv.parse_uint
octal = refl

separated : parse_int (lit "1_000") ≡ value (pos 1000)
unfolding parse_int lit skopeo.Go.Strconv.parse_uint skopeo.Go.Strconv.underscore_ok
separated = refl

badly_separated : parse_int (lit "1__000") ≡ bad syntax
unfolding parse_int lit skopeo.Go.Strconv.parse_uint skopeo.Go.Strconv.underscore_ok
badly_separated = refl

lowest : parse_int (lit "-9223372036854775808") ≡ value (negsuc 9223372036854775807)
unfolding parse_int lit skopeo.Go.Strconv.parse_uint
lowest = refl

too_high : parse_int (lit "9223372036854775808") ≡ bad range
unfolding parse_int lit skopeo.Go.Strconv.parse_uint
too_high = refl

abbrev level_7 : OptionalInt
level_7 = record { present = true; value = negsuc 6 }

abbrev pub set_off : OptionalBool
set_off = record { present = true; value = false }

abbrev no_level : OptionalInt
no_level = record { present = false; value = pos 0 }

round_trips_example :
    ((set_bool (string_of_bool set_off) unset_bool).1 ≡ set_off)
    × ((set_int (string_of_int level_7) no_level).1 ≡ level_7)
round_trips_example = round_trips set_off unset_bool level_7 no_level (omega arith)

sixteen : Numeral (lit "0x10") 16
unfolding lit
sixteen =
    prefixed hexadecimal (1 ∷ 0 ∷ []) small_x
      (inl (omega arith, refl), omega arith, (inl (omega arith, refl), omega arith, tt))

set_int_lem_example :
    (set_int (lit "0x10") no_level ≡ set_or_range (lit "0x10") (ltb 16 (2 ^ 63)) (pos 16) no_level)
    × (set_int (b'+' ∷ lit "0x10") no_level
        ≡ set_or_range (b'+' ∷ lit "0x10") (ltb 16 (2 ^ 63)) (pos 16) no_level)
    × (set_int (b'-' ∷ lit "0x10") no_level
        ≡ set_or_range (b'-' ∷ lit "0x10") (leb 16 (2 ^ 63)) (negate 16) no_level)
set_int_lem_example = set_int_lem (lit "0x10") 16 no_level sixteen

abbrev pub values : Values
values = record {
  set_string_var = λ v _. (ok tt, v);
  set_bool_var = λ v _. (ok tt, v == lit "true");
  set_int_var = λ v n. (ok tt, n);
  set_duration_var = λ v n. (ok tt, n);
  set_string_slice_var = λ v l. (ok tt, v ∷ l);
  set_int_slice_var = λ v l. (ok tt, l);
}

-- `--src-tls-verify=false --tls-verify=true`
abbrev tls_settings : List (Text × Text)
tls_settings = (lit "src-tls-verify", lit "false") ∷ (lit "tls-verify", lit "true") ∷ []

abbrev set_on : OptionalBool
set_on = record { present = true; value = true }

abbrev fresh : Cells CopyCmdOptions
unfolding new_copy_cells
fresh = new_copy_cells global []

abbrev after_src : Cells CopyCmdOptions
after_src = record fresh {
  options = record fresh.options {
    src_image = record fresh.options.src_image {
      docker_image_options = record fresh.options.src_image.docker_image_options {
        tls_verify = set_off;
      };
    };
  };
}

abbrev after_both : Cells CopyCmdOptions
after_both = record after_src { deprecated = record { tls_verify = set_on } }

src-Given : Given (copy_flags values) ((lit "src-tls-verify", lit "false") ∷ []) fresh after_src
unfolding copy_flags optional_bool_flag set_bool new_copy_cells lit skopeo.Flag.parse_bool ◌==◌
src-Given =
    give {s = fresh} {t = after_src} _ (lit "false")
      (there (there (there (there (there (there (there (there (there here))))))))) refl all_given

both-Given : Given (copy_flags values) tls_settings fresh after_both
unfolding copy_flags optional_bool_flag set_bool new_copy_cells lit skopeo.Flag.parse_bool ◌==◌
both-Given =
    give {s = fresh} {t = after_src} _ (lit "false")
      (there (there (there (there (there (there (there (there (there here))))))))) refl
      (give {s = after_src} {t = after_both} _ (lit "true") (there here) refl all_given)

abbrev all_src : AllOf source ((lit "src-tls-verify", lit "false") ∷ [])
unfolding has_prefix ◌==◌ lit
all_src = (refl, tt)

pair_apart_example : after_src.options.dest_image ≡ fresh.options.dest_image
pair_apart_example =
    pair_apart values Pairs.copy source ((lit "src-tls-verify", lit "false") ∷ []) fresh after_src
      src-Given all_src

unfoldable src_ctx : SystemContext kinds
src_ctx =
    let image = (load_copy after_both).src_image in
    with_token kinds image (image_base_context kinds image)

unfoldable dest_ctx : SystemContext kinds
dest_ctx =
    let image = (load_copy after_both).dest_image.image_options in
    record (with_token kinds image (image_base_context kinds image)) {
      dir_force_compress = false;
      dir_force_decompress = false;
      oci_accept_uncompressed_layers = false;
    }

src_accepted : image_system_context kinds (load_copy after_both).src_image ≡ ok src_ctx
unfolding image_system_context src_ctx load_copy fresh
src_accepted = refl

dest_accepted :
    dest_system_context kinds (λ s. ok s) (load_copy after_both).dest_image ≡ ok dest_ctx
unfolding dest_system_context image_system_context dest_ctx load_copy fresh
dest_accepted = refl

-- `--src-tls-verify=false` is for the source, `--tls-verify=true` for the destination.
pair_tls_example :
    (src_ctx.docker_insecure_skip_tls_verify
      ≡ skip_of_first (set_off ∷ set_on ∷ global.tls_verify ∷ []))
    × (dest_ctx.docker_insecure_skip_tls_verify
        ≡ skip_of_first (unset_bool ∷ set_on ∷ global.tls_verify ∷ []))
unfolding set_bool skopeo.Flag.parse_bool ◌==◌ lit new_copy_cells fresh
pair_tls_example =
    pair_tls values Pairs.copy global [] both-Given kinds (λ s. ok s) {src_ctx = src_ctx}
      {dest_ctx = dest_ctx} src_accepted dest_accepted

-- `skopeo delete --authfile=/auth --tls-verify=false`
abbrev delete_settings : List (Text × Text)
delete_settings = (lit "authfile", lit "/auth") ∷ (lit "tls-verify", lit "false") ∷ []

abbrev delete_fresh : Cells DeleteOptions
unfolding new_delete_cells
delete_fresh = new_delete_cells global (lit "/default")

abbrev delete_auth : Cells DeleteOptions
delete_auth = record delete_fresh { shared = record { auth_file_path = lit "/auth" } }

abbrev delete_off : Cells DeleteOptions
delete_off = record delete_auth {
  options = record delete_auth.options {
    image = record delete_auth.options.image {
      docker_image_options = record delete_auth.options.image.docker_image_options {
        tls_verify = set_off;
      };
    };
  };
}

delete-Given : Given (delete_flags values) delete_settings delete_fresh delete_off
unfolding delete_flags optional_bool_flag set_bool new_delete_cells lit skopeo.Flag.parse_bool ◌==◌
delete-Given = give {s = delete_fresh} {t = delete_auth} _ (lit "/auth") here refl (
    give {s = delete_auth} {t = delete_off} _ (lit "false")
      (there (there (there (there (there (there here)))))) refl all_given)

unfoldable delete_ctx : SystemContext kinds
delete_ctx =
    let image = (load_delete delete_off).image in
    with_token kinds image (image_base_context kinds image)

delete_accepted : image_system_context kinds (load_delete delete_off).image ≡ ok delete_ctx
unfolding image_system_context delete_ctx load_delete delete_fresh
delete_accepted = refl

single_context_example : IsOf values global (lit "/default") delete_settings kinds delete_ctx
unfolding new_delete_cells delete_fresh
single_context_example =
    single_context values delete global (lit "/default") delete-Given kinds {ctx = delete_ctx}
      delete_accepted

-- `skopeo sync --src=docker --scoped --src=yaml`
abbrev sync_settings : List (Text × Text)
sync_settings =
    (lit "src", lit "docker") ∷ (lit "scoped", lit "true") ∷ (lit "src", lit "yaml") ∷ []

abbrev sync_cells : Cells SyncOptions → Bool → Text → Cells SyncOptions
sync_cells start scoped transport = record start {
  options = record start.options { scoped = scoped; source = transport };
}

abbrev sync_fresh : Cells SyncOptions
unfolding new_sync_cells
sync_fresh = new_sync_cells global []

sync-Given :
    Given (sync_flags values) sync_settings sync_fresh (sync_cells sync_fresh true (lit "yaml"))
unfolding sync_flags optional_bool_flag new_sync_cells lit ◌==◌
sync-Given =
    give {s = sync_fresh} {t = sync_cells sync_fresh false (lit "docker")} _ (lit "docker")
      (there (there (there here))) refl
      (give {t = sync_cells sync_fresh true (lit "docker")} _ (lit "true")
        (there (there (there (there (there here))))) refl
        (give {t = sync_cells sync_fresh true (lit "yaml")} _ (lit "yaml")
          (there (there (there here))) refl all_given))

own_flags_example :
    SyncOwn values sync_settings (load_sync (sync_cells sync_fresh true (lit "yaml")))
unfolding new_sync_cells sync_fresh
own_flags_example = own_flags values global [] Pairs.sync sync-Given
