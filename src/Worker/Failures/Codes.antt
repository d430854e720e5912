-- ===== src/Worker/Failures/Codes.antt =====
-- `_public_failure_code` of cloud/src/workers/runner.py.
pub mod Bounds
use Prim.Native.Char.{Char, code, nul}
use get_receipt.Base.{
  ℕ, zero, suc, ◌-◌, String, Bool, true, false, ◌&&◌, ◌||◌, List, [], ◌∷◌, ◌==◌, nat_eq,
  if◌then◌else◌,
}
use get_receipt.Acquisition.Ports.{first_chars}
use get_receipt.Base.Text.{codes, strip, between, is_digit}

-- `[A-Z0-9_]`.
unfoldable pub is_code_char : ℕ → Bool
is_code_char c = between b'A' b'Z' c || is_digit c || c == b'_'

abbrev pub alphabet : String
alphabet = "ABCDEFGHIJKLMNOPQRSTUVWXYZ"

abbrev pub nth : String → ℕ → Char
nth String.[] i = nul
nth (String.◌∷◌ c s) zero = c
nth (String.◌∷◌ c s) (suc i) = nth s i

-- The characters beyond ASCII whose `upper()` has a letter of ASCII, and what is then left of it.
abbrev pub ligatures : List (ℕ × String)
ligatures =
    (0xDF, "SS")
    ∷ (0x131, "I")
    ∷ (0x149, "_N")
    ∷ (0x17F, "S")
    ∷ (0x1F0, "J_")
    ∷ (0x1E96, "H_")
    ∷ (0x1E97, "T_")
    ∷ (0x1E98, "W_")
    ∷ (0x1E99, "Y_")
    ∷ (0x1E9A, "A_")
    ∷ (0xFB00, "FF")
    ∷ (0xFB01, "FI")
    ∷ (0xFB02, "FL")
    ∷ (0xFB03, "FFI")
    ∷ (0xFB04, "FFL")
    ∷ (0xFB05, "ST")
    ∷ (0xFB06, "ST")
    ∷ []

abbrev pub upper_in : List (ℕ × String) → ℕ → String
upper_in [] c = "_"
upper_in ((k, text) ∷ rest) c = if k == c then text else upper_in rest c

unfoldable pub upper_code : Char → String
upper_code c =
    if is_code_char (code c)
    then String.◌∷◌ c String.[]
    else if between b'a' b'z' (code c)
    then String.◌∷◌ (nth alphabet (code c - b'a')) String.[]
    else upper_in ligatures (code c)

abbrev pub glue : String → String → String
glue String.[] t = t
glue (String.◌∷◌ c s) t = String.◌∷◌ c (glue s t)

-- `upper()` and the substitution.
unfoldable pub upper_codes : String → String
unfolding upper_code
upper_codes String.[] = String.[]
upper_codes (String.◌∷◌ c s) = glue (upper_code c) (upper_codes s)

abbrev pub put_mark : Char → String → String
put_mark c String.[] = String.[]
put_mark c (String.◌∷◌ d t) = String.◌∷◌ c (String.◌∷◌ d t)

-- `re.sub(r"_+", "_", text)` and `strip("_")`: `after` says that nothing is before the character or a
-- "_" is, which drops it.
unfoldable pub squeeze : Bool → String → String
squeeze after String.[] = String.[]
squeeze after (String.◌∷◌ c s) =
    let rest = squeeze true s in
    let other = squeeze false s in
    if code c == b'_' then (if after then rest else put_mark c rest) else String.◌∷◌ c other

abbrev pub or_failed : String → String
or_failed String.[] = "ACQUISITION_FAILED"
or_failed (String.◌∷◌ c s) = String.◌∷◌ c s

-- `_public_failure_code`.
unfoldable pub public_failure_code : String → String
unfolding upper_codes squeeze first_chars
public_failure_code value = or_failed (first_chars 64 (squeeze true (upper_codes (strip value))))

abbrev begins : List ℕ → List ℕ → Bool
begins [] cs = true
begins (p ∷ ps) [] = false
begins (p ∷ ps) (c ∷ cs) = p == c && begins ps cs

-- `text.startswith(prefix)`.
unfoldable pub begins_with : String → String → Bool
begins_with prefix s = begins (codes prefix) (codes s)

abbrev part : List ℕ → List ℕ → Bool
part ps [] = begins ps []
part ps (c ∷ cs) = begins ps (c ∷ cs) || part ps cs

-- `marker in text`.
unfoldable pub has_part : String → String → Bool
has_part marker s = part (codes marker) (codes s)
