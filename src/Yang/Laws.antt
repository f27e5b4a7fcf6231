-- ===== src/Yang/Laws.antt =====
-- Finding the leaf of a value by its name.
use sweetcomb.Prelude.{Text, text_eq, List, [], ◌∷◌, ◌++◌, ◌≡◌, refl, arith}
use sweetcomb.State.Values.{Datum}
use sweetcomb.Yang.{Leaf, YangLibrary, has_leaf, is_leaf_of}

text_eq-append : (r s t : Text) → text_eq (r ++ s) (r ++ t) ≡ text_eq s t
unfolding text_eq
text_eq-append [] s t = refl
text_eq-append (c ∷ r) s t = ground (arith, text_eq-append r s t)

pub is_leaf_of-has_leaf :
    (Y : YangLibrary) (model : List Leaf) (root n : Text) (d : Datum)
    → is_leaf_of Y model root (record { xpath = root ++ b'/' ∷ n; datum = d })
      ≡ has_leaf Y model n d
unfolding is_leaf_of has_leaf text_eq
is_leaf_of-has_leaf Y [] root n d = refl
is_leaf_of-has_leaf Y (l ∷ model) root n d =
    rw (text_eq-append root (b'/' ∷ n) (b'/' ∷ l.name), is_leaf_of-has_leaf Y model root n d)
