-- ===== src/Sync/Walk.antt =====
-- `filepath.Walk` over what it finds on disk, and `imagesToCopyFromDir`.
pub mod Laws
use skopeo.Prelude.{
  Bool, true, false, not, ◌&&◌, Option, none, some, List, [], ◌∷◌, ◌++◌, if◌then◌else◌,
}
use skopeo.Prelude.Texts.{Text, lit, ◌==◌}
use skopeo.Go.{Result, ok, err, GoError, skip_dir, wrapped, Exec}
use skopeo.Go.Path.{base, join, dir_of}
use skopeo.External.Context.{Kinds}
use skopeo.External.Files.{Tree, file, dir, unreadable, missing, Entries, end, entry}
use skopeo.External.Libraries.{References, Host, directory}

-- os.FileInfo
pub record FileInfo : Type 0 where
  pub name : Text
  pub is_dir : Bool

-- filepath.WalkFunc over the state of a closure.
abbrev pub WalkFunc {ℓ} : Type ℓ → Type ℓ
WalkFunc S = Text → FileInfo → Option GoError → S → Option GoError × S

abbrev is_dir_tree : Tree → Bool
is_dir_tree file = false
is_dir_tree _ = true

-- Does an entry's error end the walk of its directory? `SkipDir` of a directory does not.
abbrev ends_walk : Tree → GoError → Bool
ends_walk t skip_dir = not (is_dir_tree t)
ends_walk t _ = true

module _ {ℓ} {S : Type ℓ} (fn : WalkFunc S) where
  abbrev after_entry : Tree → Option GoError × S → (S → Option GoError × S) → Option GoError × S
  after_entry t (none, s) rest = rest s
  after_entry t (some e, s) rest = if ends_walk t e then (some e, s) else rest s

  abbrev after_dir : Option GoError × S → (S → Option GoError × S) → Option GoError × S
  after_dir (none, s) rest = rest s
  after_dir (some e, s) rest = (some e, s)

  unfoldable mutual
    pub walk : Tree → Text → Text → S → Option GoError × S
    walk file path name s = fn path (record { name = name; is_dir = false }) none s
    walk (unreadable e) path name s = fn path (record { name = name; is_dir = true }) (some e) s
    walk (missing e) path name s = fn path (record { name = name; is_dir = false }) (some e) s
    walk (dir es) path name s =
        after_dir (fn path (record { name = name; is_dir = true }) none s) (walk_entries es path)

    pub walk_entries : Entries → Text → S → Option GoError × S
    walk_entries end path s = (none, s)
    walk_entries (entry name t es) path s =
        after_entry t (walk t (join path name) name s) (walk_entries es path)

abbrev forget_skip {ℓ} : {S : Type ℓ} → Option GoError × S → Option GoError × S
forget_skip (some skip_dir, s) = (none, s)
forget_skip r = r

-- `filepath.Walk(root, fn)`
unfoldable pub walk_root {ℓ} : {S : Type ℓ} → WalkFunc S → Text → Tree → S → Option GoError × S
unfolding walk
walk_root fn root t s = forget_skip (walk fn t root (base root) s)

module _ (K : Kinds) (R : References K) where
  pub add_reference :
      Text
      → Result (K.ImageReference)
      → List (K.ImageReference)
      → Option GoError × List (K.ImageReference)
  add_reference dirname (ok ref) refs = (some skip_dir, refs ++ ref ∷ [])
  add_reference dirname (err e) refs = (
    some (
        wrapped e "Cannot obtain a valid image reference for transport %q and reference %q"
          (R.transport_name directory ∷ dirname ∷ [])),
    refs,
  )

  -- The closure that `imagesToCopyFromDir` walks with.
  unfoldable pub visit : WalkFunc (List (K.ImageReference))
  unfolding add_reference
  visit path info (some e) refs = (some e, refs)
  visit path info none refs =
      if not info.is_dir && info.name == lit "manifest.json"
      then add_reference (dir_of path) (R.parse_reference directory (dir_of path)) refs
      else (none, refs)

  abbrev pub walked :
      Text → Option GoError × List (K.ImageReference) → Result (List (K.ImageReference))
  walked dir_path (none, refs) = ok refs
  walked dir_path (some e, refs) = err (wrapped e "Error walking the path %q" (dir_path ∷ []))

  unfoldable pub images_to_copy_from_dir : Host K → Text → Exec (K.World) (List (K.ImageReference))
  unfolding walk_root visit
  images_to_copy_from_dir H dir_path w =
      let (t, w') = H.file_tree dir_path w in (walked dir_path (walk_root visit dir_path t []), w')
