-- ===== src/Prelude/Text.antt =====
-- What the program uses of Go's `strings` and of base 32, over the code points of a text.
use Prim.Native.Char.{Char, code}
use Prim.Native.Nat.{ℕ, zero, suc, ◌+◌, ◌/◌, ◌%◌}
use Prim.Native.String.{String, char_at}
use mathlib.Core.Bool.{Bool, true, false, not, ◌||◌, ◌&&◌}
use mathlib.Core.List.{List, [], ◌∷◌}
use mathlib.Core.Path.{◌≡◌, refl}
use native.Mathlib.Decide.{ℕ_discrete}
use remote_dev_skillkit.Prelude.Booleans.{◌==◌, nat_eq, leb, if◌then◌else◌}

-- `unicode.IsSpace`
is_space : ℕ → Bool
is_space c =
    (leb 9 c && leb c 13)
    || c == 32
    || c == 0x85
    || c == 0xa0
    || c == 0x1680
    || (leb 0x2000 c && leb c 0x200a)
    || c == 0x2028
    || c == 0x2029
    || c == 0x202f
    || c == 0x205f
    || c == 0x3000

unfoldable pub trim_left : (ℕ → Bool) → String → String
trim_left p String.[] = ""
trim_left p (String.◌∷◌ c s) = if p (code c) then trim_left p s else String.◌∷◌ c s

-- A dropped character puts nothing in front of nothing.
drop_last : Bool → Char → String → String
drop_last true c String.[] = ""
drop_last true c (String.◌∷◌ d s) = String.◌∷◌ c (String.◌∷◌ d s)
drop_last false c s = String.◌∷◌ c s

trim_right : (ℕ → Bool) → String → String
unfolding drop_last
trim_right p String.[] = ""
trim_right p (String.◌∷◌ c s) = drop_last (p (code c)) c (trim_right p s)

-- `strings.TrimSpace`
unfoldable pub trim_space : String → String
unfolding is_space trim_left trim_right
trim_space s = trim_right is_space (trim_left is_space s)

-- The bytes of a code point in UTF-8.
utf8_width : ℕ → ℕ
utf8_width c =
    if not (leb 0x80 c)
    then 1
    else if not (leb 0x800 c)
    then 2
    else if not (leb 0x10000 c)
    then 3
    else 4

-- Go's `len` of a text.
unfoldable pub byte_len : String → ℕ
unfolding utf8_width
byte_len String.[] = 0
byte_len (String.◌∷◌ c s) = utf8_width (code c) + byte_len s

-- `strings.TrimRight(s, "/")`
unfoldable pub trim_slashes : String → String
unfolding trim_right
trim_slashes = trim_right (λ c. c == b'/')

-- Whether a code point of the text passes a test, as in `strings.ContainsAny`.
unfoldable pub contains_code : (ℕ → Bool) → String → Bool
contains_code p String.[] = false
contains_code p (String.◌∷◌ c s) = p (code c) || contains_code p s

-- A character in front of the first text.
abbrev on_first : Char → List String → List String
on_first c [] = String.◌∷◌ c "" ∷ []
on_first c (t ∷ ts) = String.◌∷◌ c t ∷ ts

-- `strings.Split(s, "/")`
unfoldable pub split_slashes : String → List String
split_slashes String.[] = "" ∷ []
split_slashes (String.◌∷◌ c s) =
    let rest = split_slashes s in if code c == b'/' then "" ∷ rest else on_first c rest

-- The last `k` base-32 digits of a number, in front of `acc`.
unfoldable pub base32 : String → ℕ → ℕ → String → String
base32 alphabet zero n acc = acc
base32 alphabet (suc k) n acc =
    base32 alphabet k (n / 32) (String.◌∷◌ (char_at alphabet (n % 32)) acc)

trim_space_both : trim_space "  a b\n" ≡ "a b"
unfolding trim_space ℕ_discrete
trim_space_both = refl

trim_slashes_end : trim_slashes "https://gw//" ≡ "https://gw"
unfolding trim_slashes ℕ_discrete
trim_slashes_end = refl

base32_digits : base32 "abcdefghijklmnopqrstuvwxyz234567" 4 33 "" ≡ "aabb"
unfolding base32
base32_digits = refl
