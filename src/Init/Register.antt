-- ===== src/Init/Register.antt =====
-- Registering and unregistering functions, by the macro of src/plugins/sc_init.h.
use sweetcomb.Prelude.{
  ℕ, zero, suc, ◌≡◌, ◌≢◌, ◌<◌, ◌≤◌, refl, sym, Bool, true, false, Option, [], ◌∷◌, length, ◌==◌,
  if◌then◌else◌, arith, Bool-cases, inl, inr,
}
use sweetcomb.Prelude.Outcome.{value}
use sweetcomb.Init.{Registrations, update, add_function, rm_after, rm_function}
use sweetcomb.Init.Lists.{
  Entries, Chain, NotIn, Distinct, Represents, Chain-update, update_ne, update_self,
}

-- The entries without those of `f`.
abbrev pub without : ℕ → Entries → Entries
without f [] = []
without f ((g, c) ∷ l) = if f == g then l else (g, c) ∷ without f l

-- Registering a function that is not in the list puts it in front, not called yet, and keeps the
-- other entries.
pub add_function-Represents :
    (f : ℕ) (r : Registrations) (l : Entries)
    → Represents r l
    → NotIn f l
    → Represents (add_function f r) ((f, false) ∷ l)
unfolding add_function
add_function-Represents f r l h fresh = record {
  chain =
      rw (update_self r.elts f) (refl, refl, refl, Chain-update r.elts r.head l f _ fresh h.chain);
  distinct = (fresh, h.distinct);
}

-- The result of unlinking `f` behind the element `a`, with what stays as it was.
abbrev Unlinked : ℕ → ℕ → Bool → Registrations → Option ℕ → Entries → Registrations → Type 0
Unlinked f a b r p l r' =
    (r'.head ≡ r.head)
    × Chain r'.elts p ((a, b) ∷ without f l)
    × ((x : ℕ) → NotIn x ((a, b) ∷ l) → r'.elts x ≡ r.elts x)

relink :
    (f a g : ℕ) (b k : Bool) (r : Registrations) (p : Option ℕ) (l : Entries)
    → Chain r.elts p ((a, b) ∷ (g, k) ∷ l)
    → Distinct ((a, b) ∷ (g, k) ∷ l)
    → (f == g) ≡ true
    → Unlinked f a b r p
        ((g, k) ∷ l)
        (record r { elts = update r.elts a (record (r.elts a) { next = (r.elts g).next }) })
relink f a g b k r p l c d hit = (
  refl,
  rw (hit, update_self r.elts a)
      (c.0, c.1, c.2, Chain-update r.elts (r.elts g).next l a _ d.0.1 c.3.3),
  λ x h. update_ne r.elts a x _ (λ e. h.0 (sym e)),
)

relink_later :
    (f a g : ℕ) (b k : Bool) (r r' : Registrations) (p : Option ℕ) (l : Entries)
    → Chain r.elts p ((a, b) ∷ (g, k) ∷ l)
    → Distinct ((a, b) ∷ (g, k) ∷ l)
    → (f == g) ≡ false
    → Unlinked f g k r (r.elts a).next l r'
    → Unlinked f a b r p ((g, k) ∷ l) r'
relink_later f a g b k r r' p l c d miss (same, chain, frame) =
    (same, rw (miss, frame a d.0) (c.0, c.1, c.2, chain), λ x h. frame x h.1)

rm_after-Unlinked :
    (n f a : ℕ) (b : Bool) (r : Registrations) (p : Option ℕ) (l : Entries)
    → Chain r.elts p ((a, b) ∷ l)
    → Distinct ((a, b) ∷ l)
    → length l < n
    → (r' : Registrations) × (rm_after n f a r ≡ value r') × Unlinked f a b r p l r'
unfolding rm_after
rm_after-Unlinked zero f a b r p l c d h = absurd (omega arith)
rm_after-Unlinked (suc n) f a b r p [] c d h = (r, rw (c.3, rm_after), (refl, c, λ x m. refl))
rm_after-Unlinked (suc n) f a b r p ((g, k) ∷ l) c d h = elim (Bool-cases (f == g)) [
  | inl hit ↦ (_, ground arith, relink f a g b k r p l c d hit)
  | inr miss ↦
      let (r', e, u) = rm_after-Unlinked n f g k r (r.elts a).next l c.3 d.1 (omega arith) in
      (r', ground arith, relink_later f a g b k r r' p l c d miss u)
]

NotIn-without : (x f : ℕ) (l : Entries) → NotIn x l → NotIn x (without f l)
NotIn-without x f [] h = h
NotIn-without x f ((g, k) ∷ l) h = ground (arith, NotIn-without x f l h.1)

Distinct-without : (f : ℕ) (l : Entries) → Distinct l → Distinct (without f l)
Distinct-without f [] h = h
Distinct-without f ((g, k) ∷ l) h =
    ground (arith, Distinct-without f l h.1, NotIn-without g f l h.0)

-- Unregistering a function from a list that is not empty, and in which each function stands once,
-- ends without a fault in the list without that function; the fuel need only reach the length of
-- the list.
pub rm_function-Represents :
    (n f : ℕ) (r : Registrations) (l : Entries)
    → Represents r l
    → l ≢ []
    → length l ≤ n
    → (r' : Registrations) × (rm_function n f r ≡ value r') × Represents r' (without f l)
unfolding rm_function
rm_function-Represents n f r [] h full enough = absurd (full refl)
rm_function-Represents n f r ((a, b) ∷ l) h full enough =
    let c = h.chain in
    elim (Bool-cases (f == a)) [
      | inl hit ↦ (
        record r { head = (r.elts a).next },
        ground arith,
        record { chain = rw hit c.3; distinct = Distinct-without f ((a, b) ∷ l) h.distinct },
      )
      | inr miss ↦
          let (r', e, (same, chain, frame)) =
            rm_after-Unlinked n f a b r r.head l c h.distinct (omega arith) in
          (
            r',
            ground arith,
            record {
              chain = rw (same, miss) chain;
              distinct = Distinct-without f ((a, b) ∷ l) h.distinct;
            },
          )
    ]
