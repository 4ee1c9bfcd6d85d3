-- ===== src/Go/Path.antt =====
-- Package path of the standard library: `Clean`, `Base`, `Join`, and `filepath.Dir` as it is on Unix.
pub mod Base
pub mod Laws
use mathlib.Core.List.{foldl, reverse}
use mathlib.Core.Option.{or_else}
use skopeo.Prelude.{
  Bool, true, false, ◌||◌, ◌&&◌, Option, none, some, List, [], ◌∷◌, ◌++◌, eqb, ℕ, if◌then◌else◌,
}
use skopeo.Prelude.Texts.{Text, ◌==◌, is_blank}

abbrev pub slash : Text
slash = b'/' ∷ []

abbrev pub dot : Text
dot = b'.' ∷ []

abbrev pub dot_dot : Text
dot_dot = b'.' ∷ b'.' ∷ []

abbrev pub push_head : ℕ → List Text → List Text
push_head c [] = (c ∷ []) ∷ []
push_head c (e ∷ es) = (c ∷ e) ∷ es

-- What stands between the slashes: at least one element.
unfoldable pub elements : Text → List Text
elements [] = [] ∷ []
elements (c ∷ s) = let rest = elements s in if eqb c b'/' then [] ∷ rest else push_head c rest

unfoldable pub join_elements : List Text → Text
join_elements [] = []
join_elements (e ∷ []) = e
join_elements (e ∷ f ∷ es) = e ++ b'/' ∷ join_elements (f ∷ es)

-- An element `..` takes back the last one, if there is one to take back.
abbrev pop : Bool → List Text → List Text
pop rooted [] = if rooted then [] else dot_dot ∷ []
pop rooted (top ∷ out) = if top == dot_dot then dot_dot ∷ top ∷ out else out

-- One element, onto the elements kept so far with the last one first.
unfoldable pub clean_step : Bool → List Text → Text → List Text
clean_step rooted out e =
    if is_blank e || e == dot then out else if e == dot_dot then pop rooted out else e ∷ out

abbrev pub is_rooted : Text → Bool
is_rooted [] = false
is_rooted (c ∷ s) = eqb c b'/'

-- The elements that `Clean` keeps.
unfoldable pub clean_elements : Text → List Text
unfolding clean_step
clean_elements s = reverse (foldl (clean_step (is_rooted s)) [] (elements s))

abbrev pub or_dot : List Text → Text
or_dot [] = dot
or_dot (e ∷ es) = join_elements (e ∷ es)

-- `path.Clean(s)`
unfoldable pub clean : Text → Text
clean s = if is_rooted s then b'/' ∷ join_elements (clean_elements s) else or_dot (clean_elements s)

-- `path.Join(a, b)`
unfoldable pub join : Text → Text → Text
join a b = if is_blank a then (if is_blank b then [] else clean b) else clean (a ++ b'/' ∷ b)

-- The text without the slashes at its end.
unfoldable pub strip_slashes : Text → Text
strip_slashes [] = []
strip_slashes (c ∷ s) =
    let rest = strip_slashes s in if is_blank rest && eqb c b'/' then [] else c ∷ rest

-- What follows the last slash, if there is one.
unfoldable pub after_last : Text → Option Text
after_last [] = none
after_last (c ∷ s) = or_else (after_last s) (if eqb c b'/' then some s else none)

abbrev pub or_whole : Text → Option Text → Text
or_whole s none = s
or_whole s (some t) = t

abbrev pub last_of : Text → Text
last_of s = or_whole s (after_last s)

-- `path.Base(s)`
unfoldable pub base : Text → Text
unfolding strip_slashes after_last
base s =
    if is_blank s
    then dot
    else (let last = last_of (strip_slashes s) in if is_blank last then slash else last)

-- The text up to its last slash, which is kept.
unfoldable pub up_to_last_slash : Text → Text
up_to_last_slash [] = []
up_to_last_slash (c ∷ s) =
    let rest = up_to_last_slash s in
    if is_blank rest then (if eqb c b'/' then c ∷ [] else []) else c ∷ rest

-- `filepath.Dir(s)`
unfoldable pub dir_of : Text → Text
unfolding up_to_last_slash
dir_of s = clean (up_to_last_slash s)
