-- ===== src/Condition/Text.antt =====
-- Rust's `str::contains`, `starts_with` and `ends_with`, on the characters of a text.
use oocana_rust.Base.{String, Bool, true, false, ◌||◌, ◌&&◌, ◌==◌}

unfoldable pub text_starts_with : String → String → Bool
text_starts_with s String.[] = true
text_starts_with String.[] (String.◌∷◌ d t) = false
text_starts_with (String.◌∷◌ c s) (String.◌∷◌ d t) =
    String.◌∷◌ c String.[] == String.◌∷◌ d String.[] && text_starts_with s t

unfoldable pub text_contains : String → String → Bool
unfolding text_starts_with
text_contains String.[] t = text_starts_with String.[] t
text_contains (String.◌∷◌ c s) t = text_starts_with (String.◌∷◌ c s) t || text_contains s t

unfoldable pub text_ends_with : String → String → Bool
text_ends_with String.[] t = String.[] == t
text_ends_with (String.◌∷◌ c s) t = String.◌∷◌ c s == t || text_ends_with s t
