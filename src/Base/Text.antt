-- ===== src/Base/Text.antt =====
-- What the sources ask of `str`: emptiness, blankness, byte length, hexadecimal digits and order.
use Prim.Native.Char.{code}
use Prim.Native.String.{String, compare, len}
use Prim.Native.Nat.{ℕ, Ordering}
use mathlib.Core.Bool.{Bool, true, false, ◌&&◌, ◌||◌}
use mathlib.Core.List.{List, [], ◌∷◌}
use whale_ai_sdk.Base.Tests.{leb}

abbrev codes : String → List ℕ
codes String.[] = []
codes (String.◌∷◌ c s) = code c ∷ codes s

all_codes : (ℕ → Bool) → List ℕ → Bool
all_codes p [] = true
all_codes p (c ∷ cs) = p c && all_codes p cs

within : ℕ → ℕ → ℕ → Bool
within lo hi c = leb lo c && leb c hi

-- `char::is_whitespace`: the Unicode property White_Space.
is_whitespace : ℕ → Bool
unfolding within
is_whitespace c =
    within 0x9 0xd c
    || (within 0x20 0x20 c
        || (within 0x85 0x85 c
            || (within 0xa0 0xa0 c
                || (within 0x1680 0x1680 c
                    || (within 0x2000 0x200a c
                        || (within 0x2028 0x2029 c
                            || (within 0x202f 0x202f c
                                || (within 0x205f 0x205f c || within 0x3000 0x3000 c))))))))

-- `u8::is_ascii_hexdigit`.
is_hexdigit : ℕ → Bool
unfolding within
is_hexdigit c = within b'0' b'9' c || (within b'a' b'f' c || within b'A' b'F' c)

unfoldable pub is_empty : String → Bool
is_empty String.[] = true
is_empty (String.◌∷◌ c s) = false

-- `s.trim().is_empty()`.
unfoldable pub is_blank : String → Bool
unfolding all_codes is_whitespace
is_blank s = all_codes is_whitespace (codes s)

-- `s.bytes().all(|b| b.is_ascii_hexdigit())`: no byte of a longer UTF-8 sequence is ASCII.
unfoldable pub all_hexdigits : String → Bool
unfolding all_codes is_hexdigit
all_hexdigits s = all_codes is_hexdigit (codes s)

-- `s.len()`, in bytes.
abbrev pub byte_len : String → ℕ
byte_len s = len s

-- The order of `str`.
abbrev pub str_ltb : String → String → Bool
str_ltb s t = elim (compare s t) [ Ordering.lt ↦ true | _ ↦ false ]

ends_blank : List ℕ → Bool
ends_blank [] = false
ends_blank (c ∷ []) = is_whitespace c
ends_blank (c ∷ d ∷ cs) = ends_blank (d ∷ cs)

-- `s.trim() != s`: its first or its last character is white space.
unfoldable pub is_padded : String → Bool
unfolding is_whitespace ends_blank
is_padded String.[] = false
is_padded (String.◌∷◌ c s) = is_whitespace (code c) || ends_blank (code c ∷ codes s)
