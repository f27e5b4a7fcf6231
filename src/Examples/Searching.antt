-- ===== src/Examples/Searching.antt =====
-- A VOM that keeps its objects in a list and finds the interfaces among them.
use sweetcomb.Prelude.{
  ◌≡◌, ◌⊎◌, refl, Bool, true, false, ◌||◌, Text, text_eq, text_eq_iff, text_eq_refl, none, some, [],
  ◌∷◌, ◌++◌, if◌then◌else◌, inl, inr, Bool-cases, arith,
}
use sweetcomb.Decimal.{show}
use sweetcomb.Vom.{Vom, Obj, interface_obj, l3_obj, nat_obj, KeepsObjects, FindsInterfaces}
use sweetcomb.Interface.Address.Clears.{Forgets}
use sweetcomb.Interface.Address.Roundtrip.{AddsOne}
use sweetcomb.Examples.Mirror.{Objects, HeldIn, without_key, list_vom, list_vom-KeepsObjects}

held_later :
    (j k : Text) (o p : Obj Text Text Text) (w : Objects)
    → text_eq j k ≡ false
    → HeldIn ((j, p) ∷ w) k o
    → HeldIn w k o
held_later j k o p w other (inl (e, f)) = absurd (cc (other, (text_eq_iff j k).1 e))
held_later j k o p w other (inr h) = h

without_key-forgets :
    (k : Text) (o : Obj Text Text Text) (w : Objects) → ¬ HeldIn (without_key k w) k o
without_key-forgets k o [] h = h
without_key-forgets k o ((j, p) ∷ w) h = elim (Bool-cases (text_eq j k)) [
  | inl same ↦ without_key-forgets k o w (rw same at h)
  | inr other ↦ without_key-forgets k o w (held_later j k o p _ other (rw other at h))
]

held_below :
    (k j : Text) (o p : Obj Text Text Text) (v w : Objects)
    → (HeldIn v k o → HeldIn w k o)
    → HeldIn ((j, p) ∷ v) k o
    → HeldIn ((j, p) ∷ w) k o
held_below k j o p v w f (inl e) = inl e
held_below k j o p v w f (inr h) = inr (f h)

without_key-older :
    (k k' : Text) (o : Obj Text Text Text) (w : Objects)
    → HeldIn (without_key k w) k' o
    → HeldIn w k' o
without_key-older k k' o [] h = h
without_key-older k k' o ((j, p) ∷ w) h = elim (Bool-cases (text_eq j k)) [
  | inl same ↦ inr (without_key-older k k' o w (rw same at h))
  | inr other ↦ held_below k' j o p (without_key k w) w (without_key-older k k' o w) (rw other at h)
]

pub list_vom-Forgets : Forgets list_vom HeldIn
list_vom-Forgets = record { gone = without_key-forgets; older = without_key-older }

held_or_new :
    (k k' : Text) (o o' : Obj Text Text Text) (w : Objects)
    → HeldIn ((k, o) ∷ w) k' o'
    → (k ≡ k') ⊎ HeldIn w k' o'
held_or_new k k' o o' w (inl (e, f)) = inl e
held_or_new k k' o o' w (inr h) = inr h

pub list_vom-AddsOne : AddsOne list_vom HeldIn
list_vom-AddsOne = record { newer = held_or_new; older = λ k k' o o' w h. inr h }

abbrev has_interface : Text → Objects → Bool
has_interface n [] = false
has_interface n ((k, interface_obj i) ∷ w) = text_eq i n || has_interface n w
has_interface n ((k, l3_obj i p) ∷ w) = has_interface n w
has_interface n ((k, nat_obj a b) ∷ w) = has_interface n w

-- A prefix is its text.
abbrev pub searching_vom : Vom Objects Text Text Text
searching_vom = record list_vom {
  find = λ n w. if has_interface n w then some n else none;
  make_prefix = λ a p. some (a ++ b'/' ∷ show p);
}

held-has_interface :
    (i k : Text) (w : Objects) → HeldIn w k (interface_obj i) → has_interface i w ≡ true
held-has_interface i k [] h = elim h [ ]
held-has_interface i k ((j, interface_obj i') ∷ w) (inl (e, f)) =
    let same : i' ≡ i = cc in rw (same, text_eq_refl i)
held-has_interface i k ((j, l3_obj i' p) ∷ w) (inl (e, f)) = absurd cc
held-has_interface i k ((j, nat_obj a b) ∷ w) (inl (e, f)) = absurd cc
held-has_interface i k ((j, interface_obj i') ∷ w) (inr h) =
    ground (arith, held-has_interface i k w h)
held-has_interface i k ((j, l3_obj i' p) ∷ w) (inr h) = held-has_interface i k w h
held-has_interface i k ((j, nat_obj a b) ∷ w) (inr h) = held-has_interface i k w h

pub searching_vom-KeepsObjects : KeepsObjects searching_vom HeldIn
searching_vom-KeepsObjects = record {
  written = list_vom-KeepsObjects.written;
  kept = list_vom-KeepsObjects.kept;
  spared = list_vom-KeepsObjects.spared;
}

pub searching_vom-FindsInterfaces : FindsInterfaces searching_vom HeldIn
searching_vom-FindsInterfaces = record {
  made_name = λ n t b w. refl;
  finds = λ i w h. rw (held-has_interface i i w h);
}

pub searching_vom-Forgets : Forgets searching_vom HeldIn
searching_vom-Forgets = record { gone = without_key-forgets; older = without_key-older }

pub searching_vom-AddsOne : AddsOne searching_vom HeldIn
searching_vom-AddsOne = record { newer = held_or_new; older = λ k k' o o' w h. inr h }
