-- ===== src/Callback/Safe.antt =====
-- Steps of a sysrepo callback that do not go wrong: they go on, or jump to the label at the end.
use sweetcomb.Prelude.{
  Bool, true, false, Option, none, some, ◌≡◌, refl, subst, ◌∙◌, if◌then◌else◌, arith,
}
use sweetcomb.Prelude.Outcome.{value}
use sweetcomb.Sysrepo.{SrError}
use sweetcomb.Callback.{
  Env, Flow, next, returns, leaves, raises, breaks, M, pure, deref, live, free_iter, ends, continue,
  ◌>>=◌, ◌>>◌,
}

abbrev pub SafePost : {T : Type 0} → (T → Type 0) → Flow T → Type 0
SafePost Q (next a) = Q a
SafePost Q (leaves rc) = Unit
SafePost Q (returns rc) = ⊥
SafePost Q (raises e) = ⊥
SafePost Q (breaks u) = ⊥

-- The step leaves the iterator as it is, does not go wrong, and goes on with a value that has the
-- property.
abbrev pub Safe : {W T : Type 0} → M W T → (T → Type 0) → Type 0
Safe {W} m Q = (s : Env W) → ((m s).1.iter ≡ s.iter) × SafePost Q (m s).0

module _ {W T U : Type 0} where
  Safe-continue :
      (r : Flow T) (f : T → M W U) (s : Env W) (P : T → Type 0) (Q : U → Type 0)
      → SafePost P r
      → ((a : T) → P a → Safe (f a) Q)
      → ((continue r f s).1.iter ≡ s.iter) × SafePost Q (continue r f s).0
  Safe-continue (next a) f s P Q p k = k a p s
  Safe-continue (leaves rc) f s P Q p k = (refl, tt)
  Safe-continue (returns rc) f s P Q p k = absurd p
  Safe-continue (raises e) f s P Q p k = absurd p
  Safe-continue (breaks u) f s P Q p k = absurd p

  pub Safe-bind :
      (m : M W T) (f : T → M W U) (P : T → Type 0) (Q : U → Type 0)
      → Safe m P
      → ((a : T) → P a → Safe (f a) Q)
      → Safe (m >>= f) Q
  Safe-bind m f P Q h k s =
      let (same, p) = h s in
      let (same', q) = Safe-continue (m s).0 f (m s).1 P Q p k in (same' ∙ same, q)

module _ {W T : Type 0} where
  pub Safe-if :
      (b : Bool) (m n : M W T) (Q : T → Type 0)
      → (b ≡ true → Safe m Q)
      → (b ≡ false → Safe n Q)
      → Safe (if b then m else n) Q
  Safe-if true m n Q h k = h refl
  Safe-if false m n Q h k = k refl

  pub Safe-deref :
      (o : Option T) (a : T) (Q : T → Type 0) → o ≡ some a → Q a → Safe {W = W} (deref o) Q
  Safe-deref none a Q e q s = cc e
  Safe-deref (some b) a Q e q s = (refl, subst Q (cc e) q)

-- A safe step that is followed by a safe end returns.
pub returns_after :
    {W T : Type 0} (r : Flow T) (f : T → M W SrError) (s : Env W) (Q : T → Type 0)
    → s.iter ≡ live
    → SafePost Q r
    → ((a : T) → Q a → (rc : SrError) × ((ends (f a s).0 (f a s).1).0 ≡ value rc))
    → (rc : SrError) × ((ends (continue r f s).0 (continue r f s).1).0 ≡ value rc)
unfolding free_iter
returns_after (next a) f s Q h q k = k a q
returns_after (leaves rc) f s Q h q k = (rc, rw h)
returns_after (returns rc) f s Q h q k = absurd q
returns_after (raises e) f s Q h q k = absurd q
returns_after (breaks u) f s Q h q k = absurd q

pub close_returns :
    {W : Type 0} (rc : SrError) (s : Env W)
    → s.iter ≡ live
    → (let m : M W SrError = (do free_iter; pure rc) in (ends (m s).0 (m s).1).0 ≡ value rc)
unfolding free_iter
close_returns rc s h = ground arith
