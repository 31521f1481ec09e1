-- ===== src/I18n/Loading.antt =====
-- The loading of translations: `loadFromMongo`, `mergeJsonKeys` and `flattenTranslations` of
-- common/i18n/i18n.service.ts.
use Prim.Native.String
use api_user.Prelude.{String, Option, none, some, List, [], ◌∷◌, ◌++◌, get_or, ◌==◌, if◌then◌else◌}
use api_user.Csv.{Text}
use api_user.I18n.{Tree, empty, text_entry, tree_entry, split, set_parts, deep_merge, tree_for}

pub record I18nTranslation : Type 0 where
  pub key : String
  pub lang : String
  pub value : Text

abbrev Trees : Type 0
Trees = List (String × Tree)

-- `translations.set(lang, tree)`: in place, or at the end.
unfoldable pub set_tree : String → Tree → Trees → Trees
set_tree lang t [] = (lang, t) ∷ []
set_tree lang t ((l, old) ∷ ts) =
    let rest = set_tree lang t ts in if l == lang then (l, t) ∷ ts else (l, old) ∷ rest

abbrev pub with_tree : String → Option Tree → Trees → Option Trees
with_tree lang none ts = none
with_tree lang (some t) ts = some (set_tree lang t ts)

-- The loop over the documents of the collection, which throws where `setNested` does.
unfoldable pub load_docs : List I18nTranslation → Trees → Option Trees
unfolding set_parts split
load_docs [] ts = some ts
load_docs (d ∷ ds) ts =
    elim (with_tree d.lang (set_parts (split d.key) d.value (get_or (tree_for ts d.lang) empty))
      ts) [ none ↦ none | some next ↦ load_docs ds next ]

abbrev pub merged : Tree → Option Tree → Tree
merged data_in none = data_in
merged data_in (some t) = deep_merge data_in t

-- The keys of the files, which do not replace those of the collection.
unfoldable pub merge_json_keys : Trees → Trees → Trees
unfolding set_tree
merge_json_keys [] ts = ts
merge_json_keys ((lang, data_in) ∷ rest) ts =
    merge_json_keys rest (set_tree lang (merged data_in (tree_for ts lang)) ts)

-- `prefix ? prefix + '.' + k : k`
abbrev pub full_key : String → String → String
full_key prefix k = if prefix == "" then k else String.◌++◌ prefix (String.◌++◌ "." k)

unfoldable pub flatten_translations : Tree → String → String → List I18nTranslation
flatten_translations empty lang prefix = []
flatten_translations (text_entry k v rest) lang prefix =
    record { key = full_key prefix k; lang = lang; value = v }
    ∷ flatten_translations rest lang prefix
flatten_translations (tree_entry k sub rest) lang prefix =
    flatten_translations sub lang (full_key prefix k) ++ flatten_translations rest lang prefix
