-- ===== src/SysUtil/Prefix.antt =====
-- `utils::prefix` of src/plugins/sys_util.h and sys_util.cpp.
pub mod Laws
use sweetcomb.Prelude.{
  ℕ, zero, suc, Bool, Text, Option, none, some, [], ◌∷◌, ◌++◌, take, drop, is_empty, ◌==◌,
  if◌then◌else◌,
}
use sweetcomb.Prelude.Int.{to_unsigned}
use sweetcomb.Prelude.Outcome.{Outcome, value, throws, missing_slash, bad_address, ◌>>=◌}
use sweetcomb.Decimal.{show, stoi}
use sweetcomb.SysUtil.{Addresses}

-- `std::string::find_last_of` for one character, where `none` is `npos`.
unfoldable pub find_last_of : ℕ → Text → Option ℕ
find_last_of c [] = none
find_last_of c (d ∷ s) = elim (find_last_of c s) [
  | some i ↦ some (suc i)
  | none ↦ if d == c then some 0 else none
]

pub record Prefix (A : Type 0) : Type 0 where
  pub m_address : A
  pub m_prefix_len : ℕ

module _ {A : Type 0} where
  abbrev pub prefix_length : Prefix A → ℕ
  prefix_length p = p.m_prefix_len

  abbrev pub address : Prefix A → A
  address p = p.m_address

  -- The copy constructor.
  abbrev pub copy : Prefix A → Prefix A
  copy p = record { m_address = address p; m_prefix_len = prefix_length p }

module _ {A : Type 0} (B : Addresses A) where
  parse_address : Text → Outcome A
  parse_address s = elim (B.from_string s) [ none ↦ throws bad_address | some a ↦ value a ]

  -- The constructor from a text. The `int` of `stoi` is stored in an `unsigned short`.
  unfoldable pub of_string : Text → Outcome (Prefix A)
  unfolding parse_address
  of_string p = elim (find_last_of b'/' p) [
    | none ↦ throws missing_slash
    | some found ↦ do
      a ← parse_address (take found p)
      n ← stoi (drop (suc found) p)
      value (record { m_address = a; m_prefix_len = to_unsigned 16 n })
  ]

  -- `make_prefix` returns a copy of the prefix that the constructor makes.
  unfoldable pub make_prefix : Text → Outcome (Prefix A)
  make_prefix str = do tmp ← of_string str; value (copy tmp)

  unfoldable pub to_string : Prefix A → Text
  to_string p = B.to_string p.m_address ++ b'/' ∷ show p.m_prefix_len

  unfoldable pub empty : Prefix A → Bool
  empty p = is_empty (to_string p)

  -- The default constructor initialises the address and leaves the length as the memory has it.
  unfoldable pub default_prefix : ℕ → Prefix A
  default_prefix garbage = record { m_address = B.default; m_prefix_len = garbage }
