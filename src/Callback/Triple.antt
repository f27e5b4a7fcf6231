-- ===== src/Callback/Triple.antt =====
-- Steps of a sysrepo callback that keep an invariant of VOM's state, whatever they end in.
use sweetcomb.Prelude.{Bool, true, false, Option, none, some, ◌≡◌, refl, if◌then◌else◌, arith}
use sweetcomb.Prelude.Outcome.{Outcome, value, throws, fault}
use sweetcomb.Sysrepo.{SrError, is_ok}
use sweetcomb.Callback.{
  IterPtr, Env, Flow, next, returns, leaves, raises, breaks, M, pure, goto_end, lift, deref,
  free_iter, open_iter, ends, continue, run_callback, ◌>>=◌, ◌>>◌,
}

-- If the step goes on, then with a value that has the property.
abbrev pub Post : {T : Type 0} → (T → Type 0) → Flow T → Type 0
Post Q (next a) = Q a
Post Q (returns rc) = Unit
Post Q (leaves rc) = Unit
Post Q (raises e) = Unit
Post Q (breaks u) = Unit

module _ {W : Type 0} (Inv : W → Type 0) where
  -- The step keeps the invariant, and what it goes on with has the property.
  abbrev pub Triple : {T : Type 0} → M W T → (T → Type 0) → Type 0
  Triple m Q = (s : Env W) → Inv s.om → Inv (m s).1.om × Post Q (m s).0

  module _ {T U : Type 0} where
    Triple-continue :
        (r : Flow T) (f : T → M W U) (s : Env W) (P : T → Type 0) (Q : U → Type 0)
        → Post P r
        → ((a : T) → P a → Triple (f a) Q)
        → Inv s.om
        → Inv (continue r f s).1.om × Post Q (continue r f s).0
    Triple-continue (next a) f s P Q p k i = k a p s i
    Triple-continue (returns rc) f s P Q p k i = (i, tt)
    Triple-continue (leaves rc) f s P Q p k i = (i, tt)
    Triple-continue (raises e) f s P Q p k i = (i, tt)
    Triple-continue (breaks u) f s P Q p k i = (i, tt)

    -- One step after the other.
    pub Triple-bind :
        (m : M W T) (f : T → M W U) (P : T → Type 0) (Q : U → Type 0)
        → Triple m P
        → ((a : T) → P a → Triple (f a) Q)
        → Triple (m >>= f) Q
    Triple-bind m f P Q h k s i =
        let (i', p) = h s i in Triple-continue (m s).0 f (m s).1 P Q p k i'

  module _ {T : Type 0} where
    pub Triple-if :
        (b : Bool) (m n : M W T) (Q : T → Type 0)
        → (b ≡ true → Triple m Q)
        → (b ≡ false → Triple n Q)
        → Triple (if b then m else n) Q
    Triple-if true m n Q h k = h refl
    Triple-if false m n Q h k = k refl

    pub Triple-deref :
        (o : Option T) (Q : T → Type 0) → ((a : T) → o ≡ some a → Q a) → Triple (deref o) Q
    Triple-deref none Q h s i = (i, tt)
    Triple-deref (some a) Q h s i = (i, h a refl)

    pub Triple-lift :
        (o : Outcome T) (Q : T → Type 0) → ((a : T) → o ≡ value a → Q a) → Triple (lift o) Q
    Triple-lift (value a) Q h s i = (i, h a refl)
    Triple-lift (throws e) Q h s i = (i, tt)
    Triple-lift (fault u) Q h s i = (i, tt)

  pub Triple-pure_or_end :
      (b : Bool) (rc : SrError)
      → Triple (if b then pure tt else goto_end rc) (λ (u : Unit {0}). Unit)
  Triple-pure_or_end true rc s i = (i, tt)
  Triple-pure_or_end false rc s i = (i, tt)

  Triple-free_iter : Triple free_iter (λ u. Unit)
  unfolding free_iter
  Triple-free_iter s i = ground arith

  Triple-open_iter : (rc : SrError) → Triple (open_iter rc) (λ r. Unit)
  unfolding open_iter
  Triple-open_iter rc s i = ground arith

  pub Triple-close : (rc : SrError) → Triple (do free_iter; pure rc) (λ rc. Unit)
  Triple-close rc =
      Triple-bind free_iter _ (λ u. Unit) (λ rc. Unit) Triple-free_iter (λ u v s i. (i, tt))

  -- The iterator is opened, and what follows runs if that succeeds; otherwise it is freed.
  pub Triple-read :
      (rc : SrError) (m : M W SrError) (e : SrError → SrError)
      → Triple m (λ rc. Unit)
      → Triple (do r ← open_iter rc; if is_ok r then m else (do free_iter; pure (e r))) (λ rc. Unit)
  Triple-read rc m e h =
      Triple-bind (open_iter rc) _ (λ r. Unit) (λ rc. Unit) (Triple-open_iter rc)
        (λ r u. Triple-if (is_ok r) m _ (λ rc. Unit) (λ y. h) (λ n. Triple-close (e r)))

  Inv-ends : (r : Flow SrError) (s : Env W) → Inv s.om → Inv (ends r s).1.om
  unfolding free_iter
  Inv-ends (next rc) s i = i
  Inv-ends (returns rc) s i = i
  Inv-ends (leaves rc) s i = ground arith
  Inv-ends (raises e) s i = i
  Inv-ends (breaks u) s i = i

  -- A callback keeps the invariant if its body does.
  pub Inv-run_callback :
      (p : IterPtr) (m : M W SrError) (w : W) (Q : SrError → Type 0)
      → Triple m Q
      → Inv w
      → Inv (run_callback p m w).1.om
  Inv-run_callback p m w Q h i =
      let s : Env W = record { om = w; iter = p } in Inv-ends (m s).0 (m s).1 (h s i).0
