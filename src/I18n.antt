-- ===== src/I18n.antt =====
-- The translations of common/i18n/i18n.service.ts: trees of texts for each language.
pub mod Merge
pub mod Stored
pub mod Loading
pub mod Language
use Prim.Native.Char.{code}
use Prim.Native.String
use api_user.Prelude.{
  String, ◌≡◌, Bool, true, false, Option, none, some, List, [], ◌∷◌, ◌++◌, nat_eq, get_or, ◌==◌,
  if◌then◌else◌,
}
use api_user.Csv.{Text}
use api_user.Redis.{codes}
use api_user.Email.Substitution.{substitute_variables}

-- An object whose values are texts and objects, as its entries in order. Its keys are no names that
-- every object has, and the properties of a text are no translations.
pub data Tree : Type 0 where
  empty : Tree
  text_entry : (key : String) (value : Text) (rest : Tree) → Tree
  tree_entry : (key : String) (value : Tree) (rest : Tree) → Tree

pub data Value : Type 0 where
  missing : Value
  text : Text → Value
  object : Tree → Value

-- `tree[key]`
unfoldable pub get : Tree → String → Value
get empty k = missing
get (text_entry j s rest) k = if j == k then text s else get rest k
get (tree_entry j t rest) k = if j == k then object t else get rest k

-- `tree[key] = value`: in place, or at the end.
abbrev pub entry : String → Value → Tree → Tree
entry k missing rest = rest
entry k (text s) rest = text_entry k s rest
entry k (object t) rest = tree_entry k t rest

unfoldable pub put : String → Value → Tree → Tree
put k v empty = entry k v empty
put k v (text_entry j s rest) =
    let after = put k v rest in if j == k then entry k v rest else text_entry j s after
put k v (tree_entry j t rest) =
    let after = put k v rest in if j == k then entry k v rest else tree_entry j t after

-- `key.split('.')`
abbrev pub first_part : String → List String → List String
first_part c [] = c ∷ []
first_part c (p ∷ ps) = String.◌++◌ c p ∷ ps

unfoldable pub split : String → List String
split String.[] = "" ∷ []
split (String.◌∷◌ c s) =
    let rest = split s in
    if nat_eq (code c) b'.' then "" ∷ rest else first_part (String.◌∷◌ c "") rest

-- The loop of `resolveDirect`: what is left when the parts are used up.
abbrev pub text_of : Value → Option Text
text_of (text s) = some s
text_of missing = none
text_of (object t) = none

abbrev pub tree_of : Value → Option Tree
tree_of (object t) = some t
tree_of missing = none
tree_of (text s) = none

unfoldable pub resolve_parts : List String → Tree → Option Text
resolve_parts [] t = none
resolve_parts (k ∷ []) t = text_of (get t k)
resolve_parts (k ∷ l ∷ ks) t = elim (tree_of (get t k)) [
  | none ↦ none
  | some sub ↦ resolve_parts (l ∷ ks) sub
]

-- Where `setNested` goes on; an assignment to a property of a text throws.
abbrev pub place : Value → Option Tree
place missing = some empty
place (text []) = some empty
place (text (c ∷ s)) = none
place (object t) = some t

abbrev pub placed : String → Tree → Option Tree → Option Tree
placed k t none = none
placed k t (some sub) = some (put k (object sub) t)

unfoldable pub set_parts : List String → Text → Tree → Option Tree
set_parts [] v t = some t
set_parts (k ∷ []) v t = some (put k (text v) t)
set_parts (k ∷ l ∷ ks) v t = elim (place (get t k)) [
  | none ↦ none
  | some sub ↦ placed k t (set_parts (l ∷ ks) v sub)
]

-- `deepMerge`: what the target has of an object, and a text that it does not have.
abbrev pub sub_tree : Value → Tree
sub_tree (object t) = t
sub_tree missing = empty
sub_tree (text s) = empty

abbrev pub keep_or_put : String → Text → Tree → Value → Tree
keep_or_put k s t missing = put k (text s) t
keep_or_put k s t (text old) = t
keep_or_put k s t (object old) = t

unfoldable pub deep_merge : Tree → Tree → Tree
deep_merge empty t = t
deep_merge (text_entry k s rest) t = deep_merge rest (keep_or_put k s t (get t k))
deep_merge (tree_entry k sub rest) t =
    deep_merge rest (put k (object (deep_merge sub (sub_tree (get t k)))) t)

-- `translations.get(lang)` of the map, newest first.
abbrev pub tree_for : List (String × Tree) → String → Option Tree
tree_for [] lang = none
tree_for ((l, t) ∷ ts) lang = if l == lang then some t else tree_for ts lang

unfoldable pub resolve_direct : List (String × Tree) → String → String → Option Text
unfolding resolve_parts split
resolve_direct translations key lang = elim (tree_for translations lang) [
  | none ↦ none
  | some t ↦ resolve_parts (split key) t
]

-- `translate`: the text of the tree with the parameters put in, else what the library answers, if
-- it answers with a text, else the key. `language` is `lang || getLanguage()`.
abbrev pub interpolate : (Text → Option Text) → Option (List (String × Text)) → Text → Text
interpolate inherited none s = s
interpolate inherited (some params) s = substitute_variables inherited params s

abbrev pub direct_or :
    (Text → Option Text) → Option (List (String × Text)) → Option Text → Text → Text
direct_or inherited params none other = other
direct_or inherited params (some []) other = other
direct_or inherited params (some (c ∷ s)) other = interpolate inherited params (c ∷ s)

module _ (inherited : Text → Option Text)
    (library : String → String → Option (List (String × Text)) → Option Text) where
  unfoldable pub translate :
      List (String × Tree) → String → String → Option (List (String × Text)) → Text
  unfolding resolve_direct
  translate translations key language params =
      direct_or inherited params (resolve_direct translations key language)
        (get_or (library key language params) (codes key))
