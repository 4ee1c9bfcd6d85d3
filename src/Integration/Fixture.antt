-- ===== src/Integration/Fixture.antt =====
-- `fileFromFixture` of integration/utils.go.
use skopeo.Prelude.{ℕ, zero, suc, true, false, not, List, [], ◌∷◌, ◌++◌}
use skopeo.Prelude.Texts.{Text, lit, ◌==◌, has_prefix}
use skopeo.Go.{Exec, ◌>>=◌, ◌>>◌, pure}
use skopeo.External.Lab.{Lab}
use skopeo.Integration.Checks.{assert}

abbrev rest_of : Text → ℕ
rest_of [] = 0
rest_of (c ∷ s) = length s
  where
    length : Text → ℕ
    length [] = 0
    length (c ∷ s) = suc (length s)

-- `bytes.Replace(s, old, new, -1)` for an `old` that is not empty. The number is how much of the last
-- place that was replaced is left.
replacing : Text → Text → ℕ → Text → Text
replacing old new n [] = []
replacing old new (suc n) (c ∷ s) = replacing old new n s
replacing old new zero (c ∷ s) = elim (has_prefix (c ∷ s) old) [
  | true ↦ new ++ replacing old new (rest_of old) s
  | false ↦ c ∷ replacing old new zero s
]

unfoldable pub replace_all : Text → Text → Text → Text
unfolding replacing
replace_all s old new = replacing old new 0 s

module _ (L : Lab) where
  -- The loop, over the edits in the order of the map's iteration.
  edited : Text → List (Text × Text) → Exec (L.World) Text
  edited contents [] = pure contents
  edited contents ((template, value) ∷ edits) =
      let updated = replace_all contents template value in
      assert L (not (updated == contents)) >> edited updated edits

  unfoldable pub file_from_fixture : Text → List (Text × Text) → Exec (L.World) Text
  unfolding edited
  file_from_fixture input_path edits = do
    read ← L.read_file input_path
    contents ← edited read edits
    path ← L.temp_file [] (lit "policy.json")
    L.print_to path contents
    pure path
