-- ===== src/I18n/Language.antt =====
-- The language of a request: common/i18n/i18n.middleware.ts and common/i18n/request-lang.helper.ts.
use api_user.Prelude.{
  ℕ, String, ◌≡◌, refl, true, Option, none, some, List, [], ◌∷◌, map, take, nat_eq, get_or,
  if◌then◌else◌, arith, Bool-cases, inl, inr,
}
use api_user.Csv.{Text}
use api_user.Redis.{codes}
use api_user.Parameters.Text.{trim, to_lower_case, is_word}

abbrev pub supported_languages : List String
supported_languages = "es" ∷ "en" ∷ "pt" ∷ []

abbrev pub default_language : Text
default_language = codes "es"

-- `s.split(separator)` for a separator of one unit.
abbrev pub prepend : ℕ → List Text → List Text
prepend c [] = (c ∷ []) ∷ []
prepend c (p ∷ ps) = (c ∷ p) ∷ ps

unfoldable pub split_at : ℕ → Text → List Text
split_at separator [] = [] ∷ []
split_at separator (c ∷ s) =
    let rest = split_at separator s in if nat_eq c separator then [] ∷ rest else prepend c rest

abbrev pub first_of : List Text → Text
first_of [] = []
first_of (p ∷ ps) = p

-- `lang.split(';')[0].trim().toLowerCase()`
unfoldable pub language_of : Text → Text
unfolding split_at trim to_lower_case
language_of lang = to_lower_case (trim (first_of (split_at b';' lang)))

-- The loop up to the first supported language.
unfoldable pub first_supported : List Text → Option Text
unfolding is_word
first_supported [] = none
first_supported (l ∷ ls) =
    let rest = first_supported ls in if is_word supported_languages l then some l else rest

unfoldable pub selected_lang : Option Text → Text
unfolding first_supported language_of split_at
selected_lang none = default_language
selected_lang (some header) =
    get_or (first_supported (map language_of (split_at b',' header))) default_language

-- `getRequestLang`
abbrev pub only_supported : Text → Option Text
only_supported lang = if is_word supported_languages lang then some lang else none

unfoldable pub get_request_lang : Option Text → Option Text
unfolding split_at trim to_lower_case is_word
get_request_lang none = none
get_request_lang (some header) =
    only_supported (take 2 (to_lower_case (trim (first_of (split_at b',' header)))))

first_supported-some :
    (ls : List Text) (l : Text) → first_supported ls ≡ some l → is_word supported_languages l ≡ true
unfolding first_supported
first_supported-some [] l h = cc h
first_supported-some (k ∷ ls) l h = elim (Bool-cases (is_word supported_languages k)) [
  | inl here ↦ ground (arith, h, here)
  | inr other ↦ first_supported-some ls l (ground (arith, h, other))
]

chosen-supported :
    (o : Option Text)
    → ((l : Text) → o ≡ some l → is_word supported_languages l ≡ true)
    → is_word supported_languages (get_or o default_language) ≡ true
unfolding is_word
chosen-supported none h = refl
chosen-supported (some l) h = h l refl

-- Whatever the header is, the language of a request is a supported one.
pub selected_lang_supported :
    (header : Option Text) → is_word supported_languages (selected_lang header) ≡ true
unfolding selected_lang
selected_lang_supported none = unfold is_word in refl
selected_lang_supported (some header) =
    let languages = map language_of (split_at b',' header) in
    chosen-supported (first_supported languages) (first_supported-some languages)
