-- ===== src/Text/Tests.antt =====
-- Runs of the functions on texts.
use tunnelgate.Prelude.{[], ◌∷◌, ◌≡◌, refl}
use tunnelgate.Text.{bytes, trim_space, split, trim_right, replace_all, to_upper}

text_tests :
    (trim_space (bytes "  a b ") ≡ bytes "a b")
    × (split (bytes "a/b//") b'/' ≡ bytes "a" ∷ bytes "b" ∷ [] ∷ [] ∷ [])
    × (trim_right (bytes "/a//") b'/' ≡ bytes "/a")
    × (replace_all (bytes "a//b///c") (bytes "//") (bytes "/") ≡ bytes "a/b//c")
    × (to_upper (bytes "a1z") ≡ bytes "A1Z")
unfolding trim_space replace_all to_upper
text_tests = (refl, refl, refl, refl, refl)
