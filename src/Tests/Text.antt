-- ===== src/Tests/Text.antt =====
-- Runs of es3/errors.cpp, es3/base64.cpp and es3/pattern_match.hpp.
use extremes.Base.{◌≡◌, refl, arith, true, [], ◌∷◌, Bytes, codes, All}
use extremes.Base64.{base64_encode, base64_decode}
use extremes.Base64.Alphabet.{lookup_char}
use extremes.Base64.RoundTrip.{IsByte, decode-encode}
use extremes.Glob.{pattern_match, read_test, out_of_range}
use extremes.Glob.Items.{star, one, Matches, items}
use extremes.Glob.Decides.{Decides, pattern_match-Decides}
use extremes.Glob.Fuel.{IsFueled, pattern_match-IsFueled}

abbrev hello : Bytes
hello = codes "Hello"

hello-bytes : All IsByte hello
hello-bytes = omega arith

hello_encoded : base64_encode hello ≡ codes "SGVsbG8="
unfolding base64_encode lookup_char
hello_encoded = refl

decode-encode_example : base64_decode (base64_encode hello) ≡ hello
decode-encode_example = decode-encode hello hello-bytes

abbrev cpp_files : Bytes
cpp_files = codes "*.[ch]pp"

cpp_matches : pattern_match cpp_files (codes "es3/main.cpp") ≡ extremes.Glob.ok true
unfolding pattern_match
cpp_matches = refl

abbrev lone_star : Bytes
lone_star = codes "*a"

lone_star-items : items lone_star ≡ extremes.Glob.ok (star ∷ one (extremes.Glob.literal b'a') ∷ [])
unfolding items read_test
lone_star-items = refl

pattern_match-Decides_example :
    Decides
      (Matches (star ∷ one (extremes.Glob.literal b'a') ∷ []) (codes "banana"))
      (pattern_match lone_star (codes "banana"))
pattern_match-Decides_example =
    pattern_match-Decides lone_star (star ∷ one (extremes.Glob.literal b'a') ∷ []) lone_star-items
      (codes "banana")

pattern_match-IsFueled_example : IsFueled (pattern_match cpp_files (codes "main.cpp"))
pattern_match-IsFueled_example = pattern_match-IsFueled cpp_files (codes "main.cpp")
