-- ===== src/Tests/Translations.antt =====
-- Small trees of translations.
use api_user.Prelude.{String, ◌≡◌, refl, none, some, [], ◌∷◌}
use api_user.Redis.{codes}
use api_user.Email.Substitution.{
  is_word, span_word, placeholder_at, variable, value_of, replaced, substitute_variables,
}
use api_user.I18n.{
  Tree, empty, text_entry, tree_entry, get, put, split, resolve_parts, set_parts, deep_merge,
  resolve_direct, translate,
}
use api_user.Parameters.Text.{trim, trim_start, trim_end, is_space, lower, to_lower_case}
use api_user.Parameters.Text
use api_user.I18n.Language.{selected_lang, first_supported, language_of, split_at, get_request_lang}
use api_user.I18n.Merge.{resolve-deep_merge}
use api_user.I18n.Loading.{
  I18nTranslation, set_tree, load_docs, merge_json_keys, flatten_translations,
}

abbrev doc : String → String → I18nTranslation
doc key value = record { key = key; lang = "es"; value = codes value }

abbrev of_file : Tree
of_file =
    tree_entry "email"
      (text_entry "subject" (codes "Hola") (text_entry "footer" (codes "Adiós {{name}}") empty))
      empty

abbrev stored : Tree
stored = tree_entry "email" (text_entry "subject" (codes "Buenas") empty) empty

loaded : load_docs (doc "email.subject" "Buenas" ∷ []) [] ≡ some (("es", stored) ∷ [])
unfolding load_docs set_tree set_parts split get put
loaded = refl

-- A key that goes on below the text of another key throws.
thrown : load_docs (doc "email" "x" ∷ doc "email.subject" "y" ∷ []) [] ≡ none
unfolding load_docs set_tree set_parts split get put
thrown = refl

flattened :
    flatten_translations of_file "es" ""
    ≡ doc "email.subject" "Hola" ∷ doc "email.footer" "Adiós {{name}}" ∷ []
unfolding flatten_translations
flattened = refl

-- The text of the collection stays and the new one of the file is added.
filled :
    translate
      (λ word. none)
      (λ key language params. none)
      (merge_json_keys (("es", of_file) ∷ []) (("es", stored) ∷ []))
      "email.footer"
      "es"
      (some (("name", codes "Ana") ∷ []))
    ≡ codes "Adiós Ana"
unfolding translate merge_json_keys set_tree deep_merge get put resolve_direct resolve_parts split
    substitute_variables replaced placeholder_at value_of variable span_word is_word
filled = refl

-- An object of a file replaces a text of the collection.
replaced_text :
    resolve_parts ("email" ∷ []) (deep_merge of_file (text_entry "email" (codes "x") empty)) ≡ none
unfolding resolve_parts deep_merge get put
replaced_text = refl

kept : resolve_parts ("email" ∷ "subject" ∷ []) stored ≡ some (codes "Buenas")
unfolding resolve_parts get
kept = refl

resolve-deep_merge_example :
    resolve_parts ("email" ∷ "subject" ∷ []) (deep_merge of_file stored) ≡ some (codes "Buenas")
resolve-deep_merge_example =
    resolve-deep_merge of_file stored "email" ("subject" ∷ []) (codes "Buenas") (λ same. tt, tt)
      kept

preferred : selected_lang (some (codes "fr, PT ;q=0.9,en")) ≡ codes "pt"
unfolding selected_lang first_supported language_of split_at trim trim_start trim_end is_space lower
    to_lower_case Text.is_word
preferred = refl

-- The mails of a request look at the first language alone, but at its first two letters.
of_mails : get_request_lang (some (codes "fr, pt")) ≡ none
unfolding get_request_lang split_at trim trim_start trim_end is_space lower to_lower_case
    Text.is_word
of_mails = refl

of_region : get_request_lang (some (codes "pt-BR, en")) ≡ some (codes "pt")
unfolding get_request_lang split_at trim trim_start trim_end is_space lower to_lower_case
    Text.is_word
of_region = refl

region_skipped : selected_lang (some (codes "pt-BR, en")) ≡ codes "en"
unfolding selected_lang first_supported language_of split_at trim trim_start trim_end is_space lower
    to_lower_case Text.is_word
region_skipped = refl
