-- ===== src/State/Values/Laws.antt =====
-- Filling an array that is large enough.
use sweetcomb.Prelude.{
  ℕ, suc, ◌+◌, ◌≤◌, ◌<◌, ◌≡◌, refl, sym, ◌∙◌, some, List, [], ◌∷◌, ◌++◌, length, arith,
}
use sweetcomb.Prelude.Outcome.{Outcome, value, ◌>>=◌, bind_ext, bind_assoc}
use sweetcomb.State.Values.{Value, Buffer, Filling, new_buffer, store, put}

-- From index `i` on, the array holds these values.
abbrev pub Holds : Buffer → ℕ → List Value → Type 0
Holds b i [] = Unit
Holds b i (v ∷ vs) = (b.vals i ≡ some v) × Holds b (suc i) vs

-- The values are put one after the other.
unfoldable pub put_all : List Value → Filling → Outcome Filling
put_all [] s = value s
put_all (v ∷ vs) s = put v.xpath v.datum s >>= put_all vs

pub put_all-append :
    (us vs : List Value) (s : Filling) → put_all (us ++ vs) s ≡ (put_all us s >>= put_all vs)
unfolding put_all
put_all-append [] vs s = refl
put_all-append (u ∷ us) vs s =
    bind_ext (put u.xpath u.datum s) (put_all (us ++ vs)) (λ s'. put_all us s' >>= put_all vs)
      (put_all-append us vs)
    ∙ sym (bind_assoc (put u.xpath u.datum s) (put_all us) (put_all vs))

-- What is in the array before the counter stays.
abbrev Filled : List Value → Filling → Filling → Type 0
Filled vs s s' =
    (s'.buffer.capacity ≡ s.buffer.capacity)
    × (s'.cnt ≡ s.cnt + length vs)
    × Holds s'.buffer s.cnt vs
    × ((i : ℕ) → i < s.cnt → s'.buffer.vals i ≡ s.buffer.vals i)

put_all-Filled :
    (vs : List Value) (s : Filling)
    → s.cnt + length vs ≤ s.buffer.capacity
    → (s' : Filling) × (put_all vs s ≡ value s') × Filled vs s s'
unfolding put_all put
put_all-Filled [] s h = (s, refl, (refl, omega arith, tt, λ i lt. refl))
put_all-Filled (v ∷ vs) s h =
    let (s', e, (cap, count, holds, same)) = put_all-Filled vs (store v s) (omega arith) in
    (
      s',
      ground arith,
      (
        cap,
        omega arith,
        (same s.cnt (omega arith) ∙ ground arith, holds),
        λ i lt. same i (omega arith) ∙ ground arith,
      ),
    )

-- A new array that is large enough takes the values from its start.
pub put_all-new :
    (n : ℕ) (vs : List Value)
    → length vs ≤ n
    → (b : Buffer) × (put_all vs (record { buffer = new_buffer n; cnt = 0 })
        ≡ value (record { buffer = b; cnt = length vs }))
      × (b.capacity ≡ n)
      × Holds b 0 vs
put_all-new n vs h =
    let (s, e, (cap, count, holds, same)) =
      put_all-Filled vs (record { buffer = new_buffer n; cnt = 0 }) (omega arith) in
    (s.buffer, ground arith, cap, holds)
