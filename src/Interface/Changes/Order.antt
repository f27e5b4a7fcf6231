-- ===== src/Interface/Changes/Order.antt =====
-- What the description of a change set says when its nodes come in another order.
use sweetcomb.Prelude.{
  ℕ, suc, ◌≤◌, Bool, true, false, Text, none, List, [], ◌∷◌, All, if◌then◌else◌, ◌≡◌, ◌||◌, ap,
  refl, ◌∙◌, subst, arith,
}
use mathlib.Core.List.{Permᴰ}
use mathlib.Core.List.Permᴰ as Order
use sweetcomb.Sysrepo.{Val, Sysrepo}
use sweetcomb.Interface.Changes.{
  Edits, edited, created_in, deleted_in, last_val, has_node, has_value,
}

-- A relation between what `f` makes of two orders of a list, by what it makes of two neighbours.
module _ {ℓ κ μ} {X : Type ℓ} {C : Type κ} (f : List X → C) (Q : C → C → Type μ)
    (same : (c : C) → Q c c) (join : (c d e : C) → Q c d → Q d e → Q c e)
    (head : (x : X) (l m : List X) → Q (f l) (f m) → Q (f (x ∷ l)) (f (x ∷ m)))
    (flip : (x y : X) (l : List X) → Q (f (x ∷ y ∷ l)) (f (y ∷ x ∷ l))) where
  pub related : {l m : List X} → Permᴰ l m → Q (f l) (f m)
  related Permᴰ.nil = same (f [])
  related (Permᴰ.cons {a = a} {l₁ = l} {l₂ = m} e d) =
      subst (λ (b : X). Q (f (a ∷ l)) (f (b ∷ m))) e (head a l m (related d))
  related (Permᴰ.swap {a = a} {b = b} {a' = a'} {l = l} e₁ e₂) =
      subst (λ (c : X). Q (f (a ∷ b ∷ l)) (f (a' ∷ c ∷ l))) e₁
        (subst (λ (c : X). Q (f (a ∷ b ∷ l)) (f (c ∷ a ∷ l))) e₂ (flip a b l))
  related (Permᴰ.trans {l₁ = l} {l₂ = m} {l₃ = n} d₁ d₂) =
      join (f l) (f m) (f n) (related d₁) (related d₂)

pub edited-perm : {es fs : Edits} → Permᴰ es fs → Permᴰ (edited es) (edited fs)
unfolding edited
edited-perm =
    related edited Permᴰ Order.refl (λ c d e. Permᴰ.trans) (λ p l m. Permᴰ.cons refl)
      (λ p q l. Permᴰ.swap refl refl)

pub created_in-perm : {es fs : Edits} → Permᴰ es fs → Permᴰ (created_in es) (created_in fs)
unfolding created_in
created_in-perm = related created_in Permᴰ Order.refl (λ c d e. Permᴰ.trans) head flip
  where
    head :
        (p : Bool × Val) (es fs : Edits)
        → Permᴰ (created_in es) (created_in fs)
        → Permᴰ (created_in (p ∷ es)) (created_in (p ∷ fs))
    head (true, v) es fs d = Permᴰ.cons refl d
    head (false, v) es fs d = d

    flip :
        (p q : Bool × Val) (es : Edits) → Permᴰ (created_in (p ∷ q ∷ es)) (created_in (q ∷ p ∷ es))
    flip (true, v) (true, u) es = Permᴰ.swap refl refl
    flip (true, v) (false, u) es = Order.refl _
    flip (false, v) (true, u) es = Order.refl _
    flip (false, v) (false, u) es = Order.refl _

pub deleted_in-perm : {es fs : Edits} → Permᴰ es fs → Permᴰ (deleted_in es) (deleted_in fs)
unfolding deleted_in
deleted_in-perm = related deleted_in Permᴰ Order.refl (λ c d e. Permᴰ.trans) head flip
  where
    head :
        (p : Bool × Val) (es fs : Edits)
        → Permᴰ (deleted_in es) (deleted_in fs)
        → Permᴰ (deleted_in (p ∷ es)) (deleted_in (p ∷ fs))
    head (true, v) es fs d = d
    head (false, v) es fs d = Permᴰ.cons refl d

    flip :
        (p q : Bool × Val) (es : Edits) → Permᴰ (deleted_in (p ∷ q ∷ es)) (deleted_in (q ∷ p ∷ es))
    flip (true, v) (true, u) es = Order.refl _
    flip (true, v) (false, u) es = Order.refl _
    flip (false, v) (true, u) es = Order.refl _
    flip (false, v) (false, u) es = Permᴰ.swap refl refl

-- How many nodes have the name.
unfoldable pub times : Sysrepo → Text → List Val → ℕ
times R n [] = 0
times R n (v ∷ vs) = if R.node_name_eq v.xpath n then suc (times R n vs) else times R n vs

module _ (R : Sysrepo) (n : Text) {vs us : List Val} (d : Permᴰ vs us) where
  pub has_node-perm : has_node R n vs ≡ has_node R n us
  unfolding has_node
  has_node-perm =
      related (has_node R n) (λ b c. b ≡ c) (λ c. refl) (λ c d e p q. p ∙ q)
        (λ v l m e. ap (λ b. R.node_name_eq v.xpath n || b) e) (λ v u l. ground arith) d

  pub has_value-perm : (t : Text) → has_value R n t vs ≡ has_value R n t us
  unfolding has_value
  has_value-perm t =
      related (has_value R n t) (λ b c. b ≡ c) (λ c. refl) (λ c d e p q. p ∙ q)
        (λ v l m e. ground (arith, e)) (λ v u l. ground arith) d

pub All-perm {ℓ κ} : {X : Type ℓ} (P : X → Type κ) {l m : List X} → Permᴰ l m → All P l → All P m
All-perm P =
    related (All P) (λ a b. a → b) (λ c h. h) (λ c d e f g h. g (f h)) (λ x l m f h. (h.0, f h.1))
      (λ x y l h. (h.1.0, (h.0, h.1.1)))

module _ (R : Sysrepo) (n : Text) where
  -- Both have as many nodes of the name, and when that is at most one, the last one is the same.
  abbrev LastAgree : List Val → List Val → Type 0
  LastAgree l m = (times R n l ≡ times R n m) × (times R n l ≤ 1 → last_val R n l ≡ last_val R n m)

  absent : (l : List Val) → times R n l ≡ 0 → last_val R n l ≡ none
  unfolding times last_val
  absent [] h = refl
  absent (v ∷ l) h = ground (arith, absent l)

  LastAgree-head : (v : Val) (l m : List Val) → LastAgree l m → LastAgree (v ∷ l) (v ∷ m)
  unfolding times last_val
  LastAgree-head v l m (e, f) = (ground (arith, e), λ h. rw (f (ground arith)))

  LastAgree-flip : (v u : Val) (l : List Val) → LastAgree (v ∷ u ∷ l) (u ∷ v ∷ l)
  unfolding times last_val
  LastAgree-flip v u l = (ground arith, λ h. ground (arith, absent l))

  LastAgree-perm : {vs us : List Val} → Permᴰ vs us → LastAgree vs us
  LastAgree-perm =
      related (λ l. l) LastAgree (λ c. (refl, λ h. refl))
        (λ c d e p q. (p.0 ∙ q.0, λ h. p.1 h ∙ q.1 (rw (← p.0) h))) LastAgree-head LastAgree-flip

  pub last_val-perm :
      {vs us : List Val} → Permᴰ vs us → times R n vs ≤ 1 → last_val R n vs ≡ last_val R n us
  last_val-perm d h = (LastAgree-perm d).1 h
