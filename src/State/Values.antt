-- ===== src/State/Values.antt =====
-- The array of values that a state callback allocates, fills and hands over: the pattern
-- `sr_val_build_xpath(&val[cnt], ...); ...; cnt++;` of the state callbacks.
pub mod Laws
use sweetcomb.Prelude.{
  ℕ, zero, suc, Bool, true, false, Text, Option, none, some, List, [], ◌∷◌, ltb, ◌==◌,
  if◌then◌else◌,
}
use sweetcomb.Prelude.Int.{ℤ}
use sweetcomb.Prelude.Outcome.{Outcome, value, fault, out_of_bounds, ◌>>=◌}
use sweetcomb.Sysrepo.{SrError, SrType}

-- The member of `sr_val_t.data` that is set, with the type of the value.
pub data Datum : Type 0 where
  str_data : SrType → Text → Datum
  bool_data : Bool → Datum
  uint16_data uint32_data uint64_data : ℕ → Datum
  int32_data : ℤ → Datum

pub record Value : Type 0 where
  pub xpath : Text
  pub datum : Datum

-- What `sr_new_values` allocates.
pub record Buffer : Type 0 where
  pub capacity : ℕ
  pub vals : ℕ → Option Value

abbrev pub new_buffer : ℕ → Buffer
new_buffer n = record { capacity = n; vals = λ i. none }

-- The array and the counter `cnt`.
pub record Filling : Type 0 where
  pub buffer : Buffer
  pub cnt : ℕ

abbrev pub store : Value → Filling → Filling
store v s = record {
  buffer = record {
    capacity = s.buffer.capacity;
    vals = λ i. if i == s.cnt then some v else s.buffer.vals i;
  };
  cnt = suc s.cnt;
}

-- Writes `val[cnt]` and increments `cnt`.
unfoldable pub put : Text → Datum → Filling → Outcome Filling
put x d s =
    if ltb s.cnt s.buffer.capacity
    then value (store (record { xpath = x; datum = d }) s)
    else fault out_of_bounds

-- What a state callback leaves in `*values` and `*values_cnt`.
pub data Reply : Type 0 where
  untouched : Reply
  nothing : Reply
  answer : Buffer → ℕ → Reply

-- `*values = val; *values_cnt = cnt; return SR_ERR_OK;`
abbrev pub replies : SrError → Outcome Filling → Outcome (SrError × Reply)
replies rc o = o >>= λ s. value (rc, answer s.buffer s.cnt)
