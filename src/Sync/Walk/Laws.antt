-- ===== src/Sync/Walk/Laws.antt =====
-- The images that `imagesToCopyFromDir` finds in a tree that can be read.
use skopeo.Prelude.{
  ◌≡◌, refl, ◌∙◌, ap, sym, Bool, true, false, ◌&&◌, Bool-cases, inl, inr, Option, none, some, List,
  [], ◌∷◌, ◌++◌, if◌then◌else◌,
}
use skopeo.Prelude.Texts.{Text, lit, ◌==◌}
use skopeo.Go.{Result, ok, err, GoError, skip_dir, wrapped}
use skopeo.Go.Path.{base, join, dir_of}
use skopeo.External.Context.{Kinds}
use skopeo.External.Files.{Tree, file, dir, unreadable, missing, Entries, end, entry}
use skopeo.External.Libraries.{References, Host, directory}
use skopeo.Sync.Walk.{
  add_reference, visit, walk, walk_entries, forget_skip, walked, after_entry,
  images_to_copy_from_dir,
}

abbrev is_manifest : Text → Bool
is_manifest name = name == lit "manifest.json"

abbrev is_file : Tree → Bool
is_file file = true
is_file _ = false

-- Every file and directory of the tree can be read.
unfoldable mutual
  pub IsReadable : Tree → Type 0
  IsReadable file = Unit
  IsReadable (dir es) = AreReadable es
  IsReadable (unreadable e) = ⊥
  IsReadable (missing e) = ⊥

  pub AreReadable : Entries → Type 0
  AreReadable end = Unit
  AreReadable (entry name t es) = IsReadable t × AreReadable es

-- The directories of `manifest.json` files, in the order of their names. What a directory holds
-- behind its `manifest.json` is not looked at.
unfoldable mutual
  pub image_dirs : Tree → Text → Text → List Text
  image_dirs file path name = if is_manifest name then dir_of path ∷ [] else []
  image_dirs (dir es) path name = image_dirs_entries es path
  image_dirs (unreadable e) path name = []
  image_dirs (missing e) path name = []

  pub image_dirs_entries : Entries → Text → List Text
  image_dirs_entries end path = []
  image_dirs_entries (entry name t es) path =
      let rest = image_dirs_entries es path in
      image_dirs t (join path name) name ++ (if is_file t && is_manifest name then [] else rest)

abbrev skip_if : Bool → Option GoError
skip_if true = some skip_dir
skip_if false = none

-- Does the walk of the tree end with `SkipDir`?
mutual
  skips : Tree → Text → Bool
  skips file name = is_manifest name
  skips (dir es) name = skips_entries es
  skips (unreadable e) name = false
  skips (missing e) name = false

  skips_entries : Entries → Bool
  skips_entries end = false
  skips_entries (entry name t es) =
      let rest = skips_entries es in if is_file t && is_manifest name then true else rest

module _ (K : Kinds) (R : References K) where
  -- What reading the references of directories comes to: the first directory that is not one, with
  -- the error of the transport, if there is any; and the references read before.
  abbrev pub Collected : Type 0
  Collected = Option (Text × GoError) × List (K.ImageReference)

  abbrev chain : Collected → (List (K.ImageReference) → Collected) → Collected
  chain (none, refs) rest = rest refs
  chain (some rejected, refs) rest = (some rejected, refs)

  abbrev read_one : Text → Result (K.ImageReference) → List (K.ImageReference) → Collected
  read_one dirname (ok ref) refs = (none, refs ++ ref ∷ [])
  read_one dirname (err e) refs = (some (dirname, e), refs)

  abbrev pub collect : List Text → List (K.ImageReference) → Collected
  collect [] refs = (none, refs)
  collect (dirname ∷ dirnames) refs =
      chain (read_one dirname (R.parse_reference directory dirname) refs) (collect dirnames)

  abbrev pub not_a_reference : Text → GoError → GoError
  not_a_reference dirname e =
      wrapped e "Cannot obtain a valid image reference for transport %q and reference %q"
        (R.transport_name directory ∷ dirname ∷ [])

  -- All the references, or the error about the first directory that is not one.
  abbrev pub outcome_of : Text → Collected → Result (List (K.ImageReference))
  outcome_of dir_path (none, refs) = ok refs
  outcome_of dir_path (some (dirname, e), refs) =
      err (wrapped (not_a_reference dirname e) "Error walking the path %q" (dir_path ∷ []))

  -- How the walk of a tree ends.
  abbrev ended : Bool → Collected → Option GoError × List (K.ImageReference)
  ended skip (none, refs) = (skip_if skip, refs)
  ended skip (some (dirname, e), refs) = (some (not_a_reference dirname e), refs)

  chain-chain :
      (c : Collected) (f g : List (K.ImageReference) → Collected)
      → chain (chain c f) g ≡ chain c (λ refs. chain (f refs) g)
  chain-chain (none, refs) f g = refl
  chain-chain (some rejected, refs) f g = refl

  chain_same :
      (c : Collected) (f g : List (K.ImageReference) → Collected)
      → ((refs : List (K.ImageReference)) → f refs ≡ g refs)
      → chain c f ≡ chain c g
  chain_same (none, refs) f g h = h refs
  chain_same (some rejected, refs) f g h = refl

  collect-append :
      (ds es : List Text) (refs : List (K.ImageReference))
      → collect (ds ++ es) refs ≡ chain (collect ds refs) (collect es)
  collect-append [] es refs = refl
  collect-append (d ∷ ds) es refs =
      chain_same (read_one d (R.parse_reference directory d) refs) _ _ (collect-append ds es)
      ∙ sym
          (chain-chain (read_one d (R.parse_reference directory d) refs) (collect ds) (collect es))

  add_reference_lem :
      (d : Text) (r : Result (K.ImageReference)) (refs : List (K.ImageReference))
      → add_reference K R d r refs ≡ ended true (chain (read_one d r refs) (collect []))
  unfolding add_reference
  add_reference_lem d (ok ref) refs = refl
  add_reference_lem d (err e) refs = refl

  after_file :
      (c : Collected) (rest : List (K.ImageReference) → Option GoError × List (K.ImageReference))
      → after_entry (visit K R) file (ended true c) rest ≡ ended true c
  after_file (none, refs) rest = refl
  after_file (some rejected, refs) rest = refl

  after_dir_entry :
      (fs : Entries) (skip then_skip : Bool) (c : Collected)
      (rest : List (K.ImageReference) → Option GoError × List (K.ImageReference))
      (f : List (K.ImageReference) → Collected)
      → ((refs : List (K.ImageReference)) → rest refs ≡ ended then_skip (f refs))
      → after_entry (visit K R) (dir fs) (ended skip c) rest ≡ ended then_skip (chain c f)
  after_dir_entry fs true then_skip (none, refs) rest f h = h refs
  after_dir_entry fs false then_skip (none, refs) rest f h = h refs
  after_dir_entry fs skip then_skip (some rejected, refs) rest f h = refl

  mutual
    unfolding walk visit image_dirs skips IsReadable

    walk-visit :
        (t : Tree) (path name : Text) (refs : List (K.ImageReference))
        → IsReadable t
        → walk (visit K R) t path name refs
          ≡ ended (skips t name) (collect (image_dirs t path name) refs)
    walk-visit file path name refs h = elim (Bool-cases (is_manifest name)) [
      | inl p ↦ rw p (add_reference_lem (dir_of path) _ refs)
      | inr p ↦ rw p
    ]
    walk-visit (dir es) path name refs h = walk_entries-visit es path refs h
    walk-visit (unreadable e) path name refs h = absurd h
    walk-visit (missing e) path name refs h = absurd h

    walk_entries-visit :
        (es : Entries) (path : Text) (refs : List (K.ImageReference))
        → AreReadable es
        → walk_entries (visit K R) es path refs
          ≡ ended (skips_entries es) (collect (image_dirs_entries es path) refs)
    walk_entries-visit end path refs h = refl
    walk_entries-visit (entry name file es) path refs (_, hs) =
        elim (Bool-cases (is_manifest name)) [
          | inl p ↦ rw p (rw (add_reference_lem (dir_of (join path name)) _ refs) (after_file _ _))
          | inr p ↦ rw p (walk_entries-visit es path refs hs)
        ]
    walk_entries-visit (entry name (dir fs) es) path refs (hf, hs) =
        rw (walk_entries-visit fs (join path name) refs hf) (
          after_dir_entry fs (skips_entries fs) (skips_entries es) _ _
            (collect (image_dirs_entries es path)) (λ refs'. walk_entries-visit es path refs' hs)
          ∙ ap (ended (skips_entries es)) (
              sym (
                collect-append (image_dirs_entries fs (join path name)) (image_dirs_entries es path)
                  refs)))
    walk_entries-visit (entry name (unreadable e) es) path refs (h, _) = absurd h
    walk_entries-visit (entry name (missing e) es) path refs (h, _) = absurd h

  walked_lem :
      (dir_path : Text) (skip : Bool) (c : Collected)
      → walked K R dir_path (forget_skip (ended skip c)) ≡ outcome_of dir_path c
  walked_lem dir_path true (none, refs) = refl
  walked_lem dir_path false (none, refs) = refl
  walked_lem dir_path skip (some rejected, refs) = refl

  -- Where the tree can be read, the images of a directory are the references of the directories of
  -- `image_dirs`, which takes those of `manifest.json` files in order and leaves out what stands
  -- behind one. Where the directory transport refuses some of these directories, there is an error,
  -- about the first of them.
  pub images_to_copy_from_dir_lem :
      (H : Host K) (dir_path : Text) (w w' : K.World) (t : Tree)
      → H.file_tree dir_path w ≡ (t, w')
      → IsReadable t
      → images_to_copy_from_dir K R H dir_path w
        ≡ (outcome_of dir_path (collect (image_dirs t dir_path (base dir_path)) []), w')
  unfolding images_to_copy_from_dir
  images_to_copy_from_dir_lem H dir_path w w' t e h =
      rw (e, walk-visit t dir_path (base dir_path) [] h)
        (ap (λ r. (r, w')) (walked_lem dir_path (skips t (base dir_path)) _))
