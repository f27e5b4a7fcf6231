-- ===== src/Decimal/Roundtrip.antt =====
-- Printing and reading decimal numbers.
use sweetcomb.Prelude.{
  ℕ, zero, suc, ◌+◌, ◌/◌, ◌%◌, ◌^◌, ◌≤◌, ◌<◌, ◌≡◌, ◌≢◌, refl, sym, ap, ◌∙◌, Bool-cases, inl, inr,
  [], ◌∷◌, ◌++◌, append_assoc, append-nil, Text, ltb, All, All-append, arith,
}
use sweetcomb.Prelude.Int.{pos}
use sweetcomb.Prelude.Outcome.{value, throws, missing_slash}
use sweetcomb.Decimal.{
  show_fuel, show, read, skip_spaces, in_range, magnitude, after_spaces, stoi, after_sign, clamp,
  atoi,
}

read-show_fuel : (f n : ℕ) (t : Text) → n < f → read 0 (show_fuel f n ++ t) ≡ read n t
unfolding show_fuel read
read-show_fuel zero n t h = absurd (omega arith)
read-show_fuel (suc f) n t h = elim (Bool-cases (ltb n 10)) [
  | inl small ↦ rw small (ground arith)
  | inr big ↦ rw (big, append_assoc) (read-show_fuel f (n / 10) _ (ground arith) ∙ ground arith)
]

-- The first digit, and that there is one.
abbrev pub StartsWithDigit : Text → Type 0
StartsWithDigit s = (c : ℕ) × (t : Text) × (s ≡ c ∷ t) × (b'0' ≤ c) × (c ≤ b'9')

show_fuel-StartsWithDigit : (f n : ℕ) → n < f → StartsWithDigit (show_fuel f n)
unfolding show_fuel
show_fuel-StartsWithDigit zero n h = absurd (omega arith)
show_fuel-StartsWithDigit (suc f) n h = elim (Bool-cases (ltb n 10)) [
  | inl small ↦ rw small (b'0' + n, [], refl, omega arith, ground arith)
  | inr big ↦
      let (c, t, e, lo, hi) = show_fuel-StartsWithDigit f (n / 10) (ground arith) in
      rw (big, e) (c, t ++ (b'0' + n % 10) ∷ [], refl, lo, hi)
]

read-show : (n : ℕ) → read 0 (show n) ≡ n
unfolding show read
read-show n = rw (← append-nil (show_fuel (suc n) n)) (read-show_fuel (suc n) n [] (omega arith))

pub show-StartsWithDigit : (n : ℕ) → StartsWithDigit (show n)
unfolding show
show-StartsWithDigit n = show_fuel-StartsWithDigit (suc n) n (omega arith)

stoi_digits :
    (s : Text) (n : ℕ) → StartsWithDigit s → read 0 s ≡ n → n < 2 ^ 31 → stoi s ≡ value (pos n)
unfolding stoi
stoi_digits s n (c, t, e, lo, hi) reads h = ground arith

-- `stoi` reads back what `show` prints, in the range of `int`.
pub stoi-show : (n : ℕ) → n < 2 ^ 31 → stoi (show n) ≡ value (pos n)
stoi-show n h = stoi_digits (show n) n (show-StartsWithDigit n) (read-show n) h

after_spaces-ne-missing_slash : (s : Text) → after_spaces s ≢ throws missing_slash
unfolding after_spaces magnitude in_range
after_spaces-ne-missing_slash [] h = cc
after_spaces-ne-missing_slash (c ∷ s) h = ground arith

pub stoi-ne-missing_slash : (s : Text) → stoi s ≢ throws missing_slash
unfolding stoi
stoi-ne-missing_slash s = after_spaces-ne-missing_slash (skip_spaces s)

atoi_digits : (s : Text) (n : ℕ) → StartsWithDigit s → read 0 s ≡ n → n < 2 ^ 31 → atoi s ≡ pos n
unfolding atoi after_sign clamp
atoi_digits s n (c, t, e, lo, hi) reads h = ground arith

-- So does `atoi`.
pub atoi-show : (n : ℕ) → n < 2 ^ 31 → atoi (show n) ≡ pos n
atoi-show n h = atoi_digits (show n) n (show-StartsWithDigit n) (read-show n) h

pub show_injective : (i j : ℕ) → show i ≡ show j → i ≡ j
show_injective i j e = sym (read-show i) ∙ ap (read 0) e ∙ read-show j

abbrev pub IsDigit : ℕ → Type 0
IsDigit c = (b'0' ≤ c) × (c ≤ b'9')

show_fuel-digits : (f n : ℕ) → All IsDigit (show_fuel f n)
unfolding show_fuel
show_fuel-digits zero n = tt
show_fuel-digits (suc f) n = elim (Bool-cases (ltb n 10)) [
  | inl small ↦ rw small ((omega arith, ground arith), tt)
  | inr big ↦ rw big (
      All-append IsDigit (show_fuel f (n / 10)) _ (show_fuel-digits f (n / 10))
        ((omega arith, omega arith), tt))
]

pub show-digits : (n : ℕ) → All IsDigit (show n)
unfolding show
show-digits n = show_fuel-digits (suc n) n
