-- ===== src/Base/Text.antt =====
-- Python's operations on `str` that the program uses, on native texts and their code points.
use Prim.Native.Nat.{ℕ}
use Prim.Native.Char.{Char, code}
use Prim.Native.String.{String}
use mathlib.Core.Path.{◌≡◌, refl, ap, ◌∙◌}
use native.Mathlib.Omega.{arith}
use mathlib.Core.Bool.{Bool, true, false, not, ◌&&◌, ◌||◌}
use mathlib.Core.Logic.{inl, inr}
use mathlib.Core.List.{List, [], ◌∷◌}
use get_receipt.Base.Tests.{leb, ◌==◌, nat_eq, if◌then◌else◌, Bool-cases}
use get_receipt.Base.Lists.{all, length}

abbrev pub codes : String → List ℕ
codes String.[] = []
codes (String.◌∷◌ c s) = code c ∷ codes s

abbrev pub between : ℕ → ℕ → ℕ → Bool
between lo hi c = leb lo c && leb c hi

-- `str.isspace` of one character, in Unicode's tables as Python has them.
unfoldable pub is_space : ℕ → Bool
is_space c =
    between 9 13 c
    || between 28 32 c
    || c == 0x85
    || c == 0xA0
    || c == 0x1680
    || between 0x2000 0x200A c
    || c == 0x2028
    || c == 0x2029
    || c == 0x202F
    || c == 0x205F
    || c == 0x3000

unfoldable pub lstrip : String → String
lstrip String.[] = String.[]
lstrip (String.◌∷◌ c s) = let rest = lstrip s in if is_space (code c) then rest else String.◌∷◌ c s

-- One more character before a text whose trailing spaces are gone.
abbrev cons_stripped : Char → String → String
cons_stripped c String.[] = if is_space (code c) then String.[] else String.◌∷◌ c String.[]
cons_stripped c (String.◌∷◌ d s) = String.◌∷◌ c (String.◌∷◌ d s)

unfoldable pub rstrip : String → String
rstrip String.[] = String.[]
rstrip (String.◌∷◌ c s) = cons_stripped c (rstrip s)

-- `value.strip()`.
unfoldable pub strip : String → String
unfolding lstrip rstrip is_space
strip s = rstrip (lstrip s)

rstrip-cons_stripped :
    (c : Char) (r : String) → rstrip r ≡ r → rstrip (cons_stripped c r) ≡ cons_stripped c r
unfolding rstrip
rstrip-cons_stripped c String.[] h = elim (Bool-cases (is_space (code c))) [
  | inl e ↦ rw (e, rstrip) refl
  | inr e ↦ rw e (rw e)
]
rstrip-cons_stripped c (String.◌∷◌ d t) h = rw h

rstrip-rstrip : (s : String) → rstrip (rstrip s) ≡ rstrip s
unfolding rstrip
rstrip-rstrip String.[] = refl
rstrip-rstrip (String.◌∷◌ c s) = rstrip-cons_stripped c (rstrip s) (rstrip-rstrip s)

lstrip-cons_stripped :
    (c : Char) (r : String)
    → is_space (code c) ≡ false
    → lstrip (cons_stripped c r) ≡ cons_stripped c r
unfolding lstrip
lstrip-cons_stripped c String.[] h = rw h (rw h)
lstrip-cons_stripped c (String.◌∷◌ d t) h = rw h

lstrip-rstrip-lstrip : (s : String) → lstrip (rstrip (lstrip s)) ≡ rstrip (lstrip s)
unfolding lstrip rstrip
lstrip-rstrip-lstrip String.[] = refl
lstrip-rstrip-lstrip (String.◌∷◌ c s) = elim (Bool-cases (is_space (code c))) [
  | inl e ↦ rw e (lstrip-rstrip-lstrip s)
  | inr e ↦ rw e (lstrip-cons_stripped c (rstrip s) e)
]

pub strip-strip : (s : String) → strip (strip s) ≡ strip s
unfolding strip
strip-strip s = rw lstrip-rstrip-lstrip (rstrip-rstrip (lstrip s))

abbrev Solid : String → Type 0
Solid s = all (λ c. not (is_space c)) (codes s) ≡ true

cons_stripped-solid :
    (c : Char) (s : String) → is_space (code c) ≡ false → cons_stripped c s ≡ String.◌∷◌ c s
cons_stripped-solid c String.[] h = rw h refl
cons_stripped-solid c (String.◌∷◌ d s) h = refl

rstrip-Solid : (s : String) → Solid s → rstrip s ≡ s
unfolding rstrip
rstrip-Solid String.[] h = refl
rstrip-Solid (String.◌∷◌ c s) h =
    ap (cons_stripped c) (rstrip-Solid s (ground (arith, h)))
    ∙ cons_stripped-solid c s (ground (arith, h))

lstrip-Solid : (s : String) → Solid s → lstrip s ≡ s
unfolding lstrip
lstrip-Solid String.[] h = refl
lstrip-Solid (String.◌∷◌ c s) h = ground (arith, h)

pub strip-Solid : (s : String) → Solid s → strip s ≡ s
unfolding strip
strip-Solid s h = ap rstrip (lstrip-Solid s h) ∙ rstrip-Solid s h

abbrev pub is_empty : String → Bool
is_empty String.[] = true
is_empty (String.◌∷◌ c s) = false

-- `[0-9]`, `[a-z0-9_-]` and `[A-Za-z0-9_-]` of the regular expressions.
abbrev pub is_digit : ℕ → Bool
is_digit c = between b'0' b'9' c

unfoldable pub is_service_char : ℕ → Bool
is_service_char c = between b'a' b'z' c || is_digit c || c == b'_' || c == b'-'

unfoldable pub is_id_char : ℕ → Bool
is_id_char c = between b'A' b'Z' c || between b'a' b'z' c || is_digit c || c == b'_' || c == b'-'

-- Between `lo` and `hi` characters, each of a class: `^[...]{lo,hi}$`, matched in full.
unfoldable pub is_word : (ℕ → Bool) → ℕ → ℕ → String → Bool
is_word class lo hi s = between lo hi (length (codes s)) && all class (codes s)

-- `value.startswith(prefix)` and `part in value`.
abbrev pub starts_with : String → String → Bool
starts_with String.[] s = true
starts_with (String.◌∷◌ c p) String.[] = false
starts_with (String.◌∷◌ c p) (String.◌∷◌ d s) = code c == code d && starts_with p s

unfoldable pub is_part : String → String → Bool
is_part part String.[] = starts_with part String.[]
is_part part (String.◌∷◌ c s) = starts_with part (String.◌∷◌ c s) || is_part part s
