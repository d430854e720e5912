-- ===== src/Worker/Failures/Codes/Bounds.antt =====
-- Every public failure code is a short word of capital letters, digits and "_".
use Prim.Native.Char.{Char, code}
use get_receipt.Base.{
  ℕ, zero, suc, ◌-◌, ◌<◌, ◌≤◌, String, Bool, true, false, ◌&&◌, List, [], ◌∷◌, ◌==◌, nat_eq, All,
  all, length, ◌≡◌, refl, arith, Bool-cases, inl, inr,
}
use get_receipt.Base.Text.{codes, strip, between, is_word}
use get_receipt.Acquisition.Ports.{first_chars}
use get_receipt.Worker.Failures.Codes.{
  is_code_char, alphabet, nth, upper_in, ligatures, glue, upper_code, upper_codes, squeeze,
  put_mark, or_failed, public_failure_code,
}

abbrev Safe : String → Type 0
Safe s = all is_code_char (codes s) ≡ true

and-intro : (a b : Bool) → a ≡ true → b ≡ true → (a && b) ≡ true
and-intro a b h k = ground arith

and-parts : (a b : Bool) → (a && b) ≡ true → (a ≡ true) × (b ≡ true)
and-parts a b h = ground arith

Safe-glue : (s t : String) → Safe s → Safe t → Safe (glue s t)
Safe-glue String.[] t h k = k
Safe-glue (String.◌∷◌ c s) t h k = ground (arith, Safe-glue s t)

Safe-nth :
    (s : String) (i : ℕ) → Safe s → i < length (codes s) → is_code_char (code (nth s i)) ≡ true
Safe-nth String.[] i h lt = absurd (omega (arith, lt))
Safe-nth (String.◌∷◌ c s) zero h lt = ground (arith, h)
Safe-nth (String.◌∷◌ c s) (suc i) h lt = ground (arith, h, lt, Safe-nth s i)

Safe-upper_in :
    (table : List (ℕ × String)) (c : ℕ)
    → All (λ (row : ℕ × String). Safe row.1) table
    → Safe (upper_in table c)
unfolding is_code_char
Safe-upper_in [] c h = refl
Safe-upper_in ((k, text) ∷ rest) c h = elim (Bool-cases (k == c)) [
  | inl e ↦ rw e h.0
  | inr e ↦ rw e (Safe-upper_in rest c h.1)
]

Safe-ligatures : All (λ (row : ℕ × String). Safe row.1) ligatures
unfolding is_code_char
Safe-ligatures = (
  refl,
  (
    refl,
    (
      refl,
      (
        refl,
        (
          refl,
          (
            refl,
            (
              refl,
              (refl, (refl, (refl, (refl, (refl, (refl, (refl, (refl, (refl, (refl, tt)))))))))),
            ),
          ),
        ),
      ),
    ),
  ),
)

Safe-alphabet : Safe alphabet
unfolding is_code_char
Safe-alphabet = refl

Safe-upper_code : (c : Char) → Safe (upper_code c)
unfolding upper_code
Safe-upper_code c = elim (Bool-cases (is_code_char (code c))) [
  | inl e ↦ rw e (rw e refl)
  | inr e ↦ rw e (elim (Bool-cases (between b'a' b'z' (code c))) [
    | inl f ↦ rw f (rw (Safe-nth alphabet (code c - b'a') Safe-alphabet (ground arith)) refl)
    | inr f ↦ rw f (Safe-upper_in ligatures (code c) Safe-ligatures)
  ])
]

Safe-upper_codes : (s : String) → Safe (upper_codes s)
unfolding upper_codes
Safe-upper_codes String.[] = refl
Safe-upper_codes (String.◌∷◌ c s) =
    Safe-glue (upper_code c) (upper_codes s) (Safe-upper_code c) (Safe-upper_codes s)

Safe-put_mark :
    (c : Char) (s : String) → is_code_char (code c) ≡ true → Safe s → Safe (put_mark c s)
Safe-put_mark c String.[] h k = refl
Safe-put_mark c (String.◌∷◌ d t) h k = rw h k

Safe-squeeze : (after : Bool) (s : String) → Safe s → Safe (squeeze after s)
unfolding squeeze
Safe-squeeze after String.[] h = refl
Safe-squeeze after (String.◌∷◌ c s) h =
    let (first, rest) = and-parts (is_code_char (code c)) (all is_code_char (codes s)) h in
    elim (Bool-cases (code c == b'_')) [
      | inl e ↦ rw e (elim (Bool-cases after) [
        | inl f ↦ rw f (Safe-squeeze true s rest)
        | inr f ↦ rw f (Safe-put_mark c (squeeze true s) first (Safe-squeeze true s rest))
      ])
      | inr e ↦ rw e (rw first (Safe-squeeze false s rest))
    ]

first_chars-bound :
    (n : ℕ) (s : String) → Safe s → Safe (first_chars n s) × (length (codes (first_chars n s)) ≤ n)
unfolding first_chars
first_chars-bound n String.[] h = (refl, omega arith)
first_chars-bound zero (String.◌∷◌ c s) h = (refl, omega arith)
first_chars-bound (suc n) (String.◌∷◌ c s) h = ground (arith, h, first_chars-bound n s)

or_failed-word :
    (s : String) → Safe s → length (codes s) ≤ 64 → is_word is_code_char 1 64 (or_failed s) ≡ true
unfolding is_word is_code_char
or_failed-word String.[] h k = refl
or_failed-word (String.◌∷◌ c s) h k = and-intro _ _ (ground (arith, k)) h

-- Whatever a provider raises, the code that is stored for it has from 1 to 64 characters, all of them
-- capital letters, digits and "_".
pub public_failure_code-word :
    (value : String) → is_word is_code_char 1 64 (public_failure_code value) ≡ true
unfolding public_failure_code
public_failure_code-word value =
    let (safe, short) =
      first_chars-bound 64 (squeeze true (upper_codes (strip value)))
        (Safe-squeeze true (upper_codes (strip value)) (Safe-upper_codes (strip value))) in
    or_failed-word (first_chars 64 (squeeze true (upper_codes (strip value)))) safe short
