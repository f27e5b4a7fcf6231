-- ===== src/Init/Lists.antt =====
-- The abstract view of a registration list: its functions in order, each with its flag.
use sweetcomb.Prelude.{ℕ, ◌≡◌, ◌≢◌, Bool, Option, none, some, List, [], ◌∷◌, arith}
use sweetcomb.Init.{Elt, Registrations, update}

abbrev pub Entries : Type 0
Entries = List (ℕ × Bool)

-- From the pointer `p` the elements in memory are the entries of the list.
abbrev pub Chain : (ℕ → Elt) → Option ℕ → Entries → Type 0
Chain m p [] = p ≡ none
Chain m p ((f, c) ∷ l) =
    (p ≡ some f) × ((m f).func ≡ f) × ((m f).is_called ≡ c) × Chain m (m f).next l

abbrev pub NotIn : ℕ → Entries → Type 0
NotIn f [] = Unit
NotIn f ((g, c) ∷ l) = (f ≢ g) × NotIn f l

abbrev pub Distinct : Entries → Type 0
Distinct [] = Unit
Distinct ((f, c) ∷ l) = NotIn f l × Distinct l

-- The registrations are the entries, each function once.
pub record Represents (r : Registrations) (l : Entries) : Type 0 where
  pub chain : Chain r.elts r.head l
  pub distinct : Distinct l

pub update_ne : (m : ℕ → Elt) (a b : ℕ) (e : Elt) → a ≢ b → update m a e b ≡ m b
update_ne m a b e h = ground arith

pub update_self : (m : ℕ → Elt) (a : ℕ) (e : Elt) → update m a e a ≡ e
update_self m a e = ground arith

-- An element that is not in the list can be written freely.
pub Chain-update :
    (m : ℕ → Elt) (p : Option ℕ) (l : Entries) (a : ℕ) (e : Elt)
    → NotIn a l
    → Chain m p l
    → Chain (update m a e) p l
Chain-update m p [] a e h c = c
Chain-update m p ((f, b) ∷ l) a e h c =
    rw (update_ne m a f e h.0) (c.0, c.1, c.2, Chain-update m (m f).next l a e h.1 c.3)
