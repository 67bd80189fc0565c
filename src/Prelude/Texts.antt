-- ===== src/Prelude/Texts.antt =====
-- What the program asks of a JavaScript string: its length in UTF-16 units, its size in UTF-8, and
-- tests on its characters, which stand for the regular expressions of the source.
use Prim.Native.Nat.{ℕ, suc, ◌+◌}
use Prim.Native.Char.{code}
use Prim.Native.String.{String, len}
use mathlib.Core.Bool.{Bool, true, false, ◌&&◌, ◌||◌}
use text.Mathlib.Text.{◌==◌ as str_eq}
use istream.Prelude.Tests.{leb, ◌==◌, if◌then◌else◌}

-- `text.length`: a character outside the basic plane takes two units.
unfoldable pub text_length : String → ℕ
text_length String.[] = 0
text_length (String.◌∷◌ c s) = (if leb 65536 (code c) then 2 else 1) + text_length s

-- `Buffer.byteLength(text, 'utf8')`.
abbrev pub byte_length : String → ℕ
byte_length s = len s

abbrev pub is_digit : ℕ → Bool
is_digit c = leb b'0' c && leb c b'9'

-- One character of `[a-f0-9]` with the flag `i`.
abbrev pub is_hex : ℕ → Bool
is_hex c = is_digit c || (leb b'a' c && leb c b'f') || (leb b'A' c && leb c b'F')

-- One character of `[A-Za-z0-9+/]`.
abbrev pub is_base64 : ℕ → Bool
is_base64 c =
    (leb b'A' c && leb c b'Z') || (leb b'a' c && leb c b'z') || is_digit c || c == b'+' || c == b'/'

unfoldable pub every : (ℕ → Bool) → String → Bool
every p String.[] = true
every p (String.◌∷◌ c s) = p (code c) && every p s

-- At most `n` times `=` up to the end.
unfoldable pub padding : ℕ → String → Bool
padding n String.[] = true
padding ℕ.zero (String.◌∷◌ c s) = false
padding (suc n) (String.◌∷◌ c s) = code c == b'=' && padding n s

-- The rest of `[A-Za-z0-9+/]+={0,2}` behind its first character.
unfoldable pub base64_rest : String → Bool
unfolding padding
base64_rest String.[] = true
base64_rest (String.◌∷◌ c s) =
    let rest = base64_rest s in if is_base64 (code c) then rest else padding 2 (String.◌∷◌ c s)

-- `/^[A-Za-z0-9+/]+={0,2}$/.test(text)`
unfoldable pub matches_base64 : String → Bool
unfolding base64_rest
matches_base64 String.[] = false
matches_base64 (String.◌∷◌ c s) = is_base64 (code c) && base64_rest s

-- `/^[a-f0-9]{32}$/i.test(text)`
unfoldable pub matches_device_id : String → Bool
unfolding every text_length
matches_device_id s = text_length s == 32 && every is_hex s

-- `/^\d{6}$/.test(text)`
unfoldable pub matches_six_digits : String → Bool
unfolding every text_length
matches_six_digits s = text_length s == 6 && every is_digit s

-- `/^\d{1,20}$/.test(text)`
unfoldable pub matches_counter : String → Bool
unfolding every text_length
matches_counter s = leb 1 (text_length s) && leb (text_length s) 20 && every is_digit s

-- The white space and line ends that `trim` takes off.
abbrev pub is_space : ℕ → Bool
is_space c =
    (leb 9 c && leb c 13)
    || c == 32
    || c == 160
    || c == 0x1680
    || (leb 0x2000 c && leb c 0x200a)
    || c == 0x2028
    || c == 0x2029
    || c == 0x202f
    || c == 0x205f
    || c == 0x3000
    || c == 0xfeff

unfoldable pub trim_start : String → String
trim_start String.[] = ""
trim_start (String.◌∷◌ c s) =
    let rest = trim_start s in if is_space (code c) then rest else String.◌∷◌ c s

unfoldable pub trim_end : String → String
trim_end String.[] = ""
trim_end (String.◌∷◌ c s) =
    let rest = trim_end s in if is_space (code c) && str_eq rest "" then "" else String.◌∷◌ c rest

unfoldable pub trim : String → String
unfolding trim_start trim_end
trim s = trim_end (trim_start s)
