-- ===== src/Callback.antt =====
-- How a sysrepo callback of src/plugins runs: it works on the VOM state and on its change iterator,
-- and ends by a return, by its `goto nothing_todo` (or `error`), by an exception or in a fault.
pub mod Triple
pub mod Safe
use sweetcomb.Prelude.{Bool, true, false, Option, none, some, ◌≡◌, refl, if◌then◌else◌}
use sweetcomb.Prelude.Outcome.{
  Exception, Fault, double_free, wild_free, uncaught, Outcome, value, throws, fault,
}
use sweetcomb.Sysrepo.{SrError, is_ok}

-- The pointer is not null.
abbrev pub present : {A : Type 0} → Option A → Bool
present none = false
present (some a) = true

-- The pointer `sr_change_iter_t *iter`.
pub data IterPtr : Type 0 where
  null_ptr wild live freed : IterPtr

pub record Env (W : Type 0) : Type 0 where
  pub om : W
  pub iter : IterPtr

pub data Flow (A : Type 0) : Type 0 where
  next : A → Flow A
  -- `return rc;`
  returns : SrError → Flow A
  -- `goto nothing_todo;` with this `rc`
  leaves : SrError → Flow A
  raises : Exception → Flow A
  breaks : Fault → Flow A

abbrev pub M : Type 0 → Type 0 → Type 0
M W A = Env W → Flow A × Env W

module _ {W A : Type 0} where
  abbrev pub pure : A → M W A
  pure a s = (next a, s)

  abbrev pub return_with : SrError → M W A
  return_with rc s = (returns rc, s)

  abbrev pub goto_end : SrError → M W A
  goto_end rc s = (leaves rc, s)

  abbrev pub crash : Fault → M W A
  crash u s = (breaks u, s)

  abbrev pub lift : Outcome A → M W A
  lift (value a) s = (next a, s)
  lift (throws e) s = (raises e, s)
  lift (fault u) s = (breaks u, s)

  abbrev recover : M W A → Flow A → M W A
  recover handler (raises e) s = handler s
  recover handler (next a) s = (next a, s)
  recover handler (returns rc) s = (returns rc, s)
  recover handler (leaves rc) s = (leaves rc, s)
  recover handler (breaks u) s = (breaks u, s)

  -- `try { m } catch (std::exception &) { handler }`
  abbrev pub try_catch : M W A → M W A → M W A
  try_catch m handler s = recover handler (m s).0 (m s).1

  -- Reads through a pointer that may be null.
  abbrev pub deref : Option A → M W A
  deref none s = (breaks Fault.null_deref, s)
  deref (some a) s = (next a, s)

module _ {W A B : Type 0} where
  abbrev pub continue : Flow A → (A → M W B) → M W B
  continue (next a) f s = f a s
  continue (returns rc) f s = (returns rc, s)
  continue (leaves rc) f s = (leaves rc, s)
  continue (raises e) f s = (raises e, s)
  continue (breaks u) f s = (breaks u, s)

  infixl 5 ◌>>=◌ ◌>>◌
  abbrev pub ◌>>=◌ : M W A → (A → M W B) → M W B
  ◌>>=◌ m f s = continue (m s).0 f (m s).1

  abbrev pub ◌>>◌ : M W A → M W B → M W B
  m >> n = m >>= λ _. n

module _ {W : Type 0} where
  -- `sr_free_change_iter`
  unfoldable pub free_iter : M W (Unit {0})
  free_iter s = elim s.iter [
    | null_ptr ↦ (next tt, s)
    | wild ↦ (breaks wild_free, s)
    | live ↦ (next tt, record s { iter = freed })
    | freed ↦ (breaks double_free, s)
  ]

  -- `rc = sr_get_changes_iter(session, xpath, &iter)`: the pointer is written on success.
  unfoldable pub open_iter : SrError → M W SrError
  open_iter rc s = elim (is_ok rc) [
    | true ↦ (next rc, record s { iter = live })
    | false ↦ (next rc, s)
  ]

  -- A call that changes the VOM state.
  abbrev pub update_om : (W → W) → M W (Unit {0})
  update_om f s = (next tt, record s { om = f s.om })

  -- A call that changes the VOM state and returns a value.
  abbrev pub call_om : {A : Type 0} → (W → A × W) → M W A
  call_om f s = (next (f s.om).0, record s { om = (f s.om).1 })

  abbrev pub gets_om : {A : Type 0} → (W → A) → M W A
  gets_om f s = (next (f s.om), s)

  -- `ARG_CHECK(retval, arg)`, where the flag says that the pointer `arg` is not null.
  unfoldable pub arg_check : SrError → Bool → M W (Unit {0})
  arg_check retval arg = if arg then pure tt else return_with retval

  -- `ARG_CHECK2(retval, arg1, arg2)`
  unfoldable pub arg_check2 : SrError → Bool → Bool → M W (Unit {0})
  arg_check2 retval arg1 arg2 = do arg_check retval arg1; arg_check retval arg2

  -- The end of a callback: the label frees the iterator and returns `rc`; an exception that
  -- leaves the callback goes through C code.
  abbrev pub ends : Flow SrError → Env W → Outcome SrError × Env W
  ends (next rc) s = (value rc, s)
  ends (returns rc) s = (value rc, s)
  ends (leaves rc) s = elim (free_iter s).0 [
    | breaks u ↦ (fault u, s)
    | _ ↦ (value rc, (free_iter s).1)
  ]
  ends (raises e) s = (fault (uncaught e), s)
  ends (breaks u) s = (fault u, s)

  -- A callback runs on the VOM state, with its iterator as the declaration leaves it.
  abbrev pub run_callback : IterPtr → M W SrError → W → Outcome SrError × Env W
  run_callback p m w = let s : Env W = record { om = w; iter = p } in ends (m s).0 (m s).1

-- The callback has executed a `return`.
abbrev pub is_return : {A : Type 0} → Flow A → Bool
is_return (returns rc) = true
is_return (next a) = false
is_return (leaves rc) = false
is_return (raises e) = false
is_return (breaks u) = false

-- What goes on from a step keeps the iterator and does not return, if its continuation does so.
pub continue_keeps :
    {W A B : Type 0} (r : Flow A) (f : A → M W B) (s : Env W)
    → is_return r ≡ false
    → ((a : A) → ((f a s).1.iter ≡ s.iter) × (is_return (f a s).0 ≡ false))
    → ((continue r f s).1.iter ≡ s.iter) × (is_return (continue r f s).0 ≡ false)
continue_keeps (next a) f s h k = k a
continue_keeps (returns rc) f s h k = cc
continue_keeps (leaves rc) f s h k = (refl, refl)
continue_keeps (raises e) f s h k = (refl, refl)
continue_keeps (breaks u) f s h k = (refl, refl)

-- Equal continuations give equal results.
pub continue_ext :
    {W A B : Type 0} (r : Flow A) (f g : A → M W B) (s : Env W)
    → ((a : A) (s' : Env W) → f a s' ≡ g a s')
    → continue r f s ≡ continue r g s
continue_ext (next a) f g s h = h a s
continue_ext (returns rc) f g s h = refl
continue_ext (leaves rc) f g s h = refl
continue_ext (raises e) f g s h = refl
continue_ext (breaks u) f g s h = refl

pub lift_keeps : {S T : Type 0} (o : Outcome T) (s : Env S) → (lift o s).1 ≡ s
lift_keeps (value a) s = refl
lift_keeps (throws e) s = refl
lift_keeps (fault u) s = refl

-- What goes on from a step keeps the state, if its continuation does so.
pub continue_keeps_state :
    {S T U : Type 0} (r : Flow T) (f : T → M S U) (s : Env S)
    → ((a : T) → (f a s).1 ≡ s)
    → (continue r f s).1 ≡ s
continue_keeps_state (next a) f s h = h a
continue_keeps_state (returns rc) f s h = refl
continue_keeps_state (leaves rc) f s h = refl
continue_keeps_state (raises e) f s h = refl
continue_keeps_state (breaks u) f s h = refl

-- Three steps one after the other.
pub continue_assoc :
    {S T U X : Type 0} (r : Flow T) (f : T → M S U) (g : U → M S X) (s : Env S)
    → continue (continue r f s).0 g (continue r f s).1
      ≡ continue r (λ a s'. continue (f a s').0 g (f a s').1) s
continue_assoc (next a) f g s = refl
continue_assoc (returns rc) f g s = refl
continue_assoc (leaves rc) f g s = refl
continue_assoc (raises e) f g s = refl
continue_assoc (breaks u) f g s = refl
