-- ===== src/Plugin/Pid/Command.antt =====
-- Reading a program's name from the first thirteen bytes of its `cmdline` file.
use sweetcomb.Prelude.{
  ℕ, zero, suc, ◌<◌, ◌≡◌, ◌≢◌, ◌⊎◌, refl, false, Text, codes, text_eq, is_empty, [], ◌∷◌, ◌++◌,
  ◌||◌, length, take, All, arith,
}
use sweetcomb.Plugin.Pid.{
  c_string, skip_blanks, up_to_blank, first_token, vpp_full_path_size, is_vpp,
}

-- A byte that ends no word of a command.
abbrev pub IsPlain : ℕ → Type 0
IsPlain c = (c ≢ 0) × (c ≢ b' ')

-- What stands behind the program's name: a 0 before an argument, or a blank.
abbrev pub IsEnd : ℕ → Type 0
IsEnd c = (c ≡ 0) ⊎ (c ≡ b' ')

word_of :
    (n : ℕ) (prog : Text) (sep : ℕ) (rest : Text)
    → All IsPlain prog
    → IsEnd sep
    → up_to_blank (c_string (take n (prog ++ sep ∷ rest))) ≡ take n prog
unfolding up_to_blank c_string
word_of zero prog sep rest plain ends = refl
word_of (suc n) [] sep rest plain ends = ground arith
word_of (suc n) (c ∷ prog) sep rest plain ends =
    let ih = word_of n prog sep rest plain.1 ends in ground (arith, plain.0)

first_token-program :
    (n : ℕ) (c : ℕ) (prog : Text) (sep : ℕ) (rest : Text)
    → All IsPlain (c ∷ prog)
    → IsEnd sep
    → first_token (take (suc n) (c ∷ prog ++ sep ∷ rest)) ≡ take (suc n) (c ∷ prog)
unfolding first_token c_string skip_blanks up_to_blank
first_token-program n c prog sep rest plain ends =
    let w = word_of n prog sep rest plain.1 ends in ground (arith, plain.0)

text_eq-take : (n : ℕ) (s t : Text) → length t < n → text_eq (take n s) t ≡ text_eq s t
unfolding text_eq
text_eq-take zero s t h = absurd (omega arith)
text_eq-take (suc n) [] t h = refl
text_eq-take (suc n) (c ∷ s) [] h = refl
text_eq-take (suc n) (c ∷ s) (d ∷ t) h = rw (text_eq-take n s t (omega arith))

-- The thirteen bytes are enough: for a command line that starts with a program's name, the test says
-- whether the whole name is "vpp" or "/usr/bin/vpp", however long the name is.
pub is_vpp-first_token :
    (prog : Text) (sep : ℕ) (rest : Text)
    → is_empty prog ≡ false
    → All IsPlain prog
    → IsEnd sep
    → is_vpp (first_token (take vpp_full_path_size (prog ++ sep ∷ rest)))
      ≡ (text_eq prog (codes "vpp") || text_eq prog (codes "/usr/bin/vpp"))
unfolding is_vpp
is_vpp-first_token [] sep rest full plain ends = absurd (cc full)
is_vpp-first_token (c ∷ prog) sep rest full plain ends = rw (
  first_token-program 12 c prog sep rest plain ends,
  text_eq-take 13 (c ∷ prog) (codes "vpp") (omega arith),
  text_eq-take 13 (c ∷ prog) (codes "/usr/bin/vpp") (omega arith),
)
