-- ===== src/Parameters/Text.antt =====
-- The texts that config/parameters compares: `trim`, `toLowerCase` and the lists of words.
use Prim.Native.String.{String}
use api_user.Prelude.{
  ℕ, ◌+◌, List, [], ◌∷◌, map, Bool, false, ◌&&◌, ◌||◌, nat_eq, leb, if◌then◌else◌,
}
use api_user.Redis.{codes, same_codes}

-- The white space that `trim` removes.
unfoldable pub is_space : ℕ → Bool
is_space c =
    (leb 9 c && leb c 13)
    || (nat_eq c 32
        || (nat_eq c 160
            || (nat_eq c 5760
                || ((leb 8192 c && leb c 8202)
                    || (nat_eq c 8232
                        || (nat_eq c 8233
                            || (nat_eq c 8239
                                || (nat_eq c 8287 || (nat_eq c 12288 || nat_eq c 65279)))))))))

unfoldable pub trim_start : List ℕ → List ℕ
trim_start [] = []
trim_start (c ∷ s) = let rest = trim_start s in if is_space c then rest else c ∷ s

abbrev pub unless_blank : ℕ → List ℕ → List ℕ
unless_blank c [] = if is_space c then [] else c ∷ []
unless_blank c (d ∷ s) = c ∷ d ∷ s

unfoldable pub trim_end : List ℕ → List ℕ
trim_end [] = []
trim_end (c ∷ s) = unless_blank c (trim_end s)

unfoldable pub trim : List ℕ → List ℕ
unfolding trim_start trim_end is_space
trim s = trim_end (trim_start s)

-- No unit beyond ASCII has a letter of the words below as its lower case but the one that also adds
-- a mark, so that it may stay as it is.
unfoldable pub lower : ℕ → ℕ
lower c = if leb b'A' c && leb c b'Z' then c + 32 else c

unfoldable pub to_lower_case : List ℕ → List ℕ
unfolding lower
to_lower_case s = map lower s

-- `words.includes(s)`
unfoldable pub is_word : List String → List ℕ → Bool
is_word [] s = false
is_word (w ∷ ws) s = same_codes (codes w) s || is_word ws s
