-- ===== src/SysUtil/Prefix/Laws.antt =====
-- Printing, reading and testing the prefixes of src/plugins/sys_util.cpp.
use sweetcomb.Prelude.{
  ℕ, suc, ◌^◌, ◌<◌, ◌≡◌, refl, ap, ◌↔◌, ◌≢◌, inl, inr, Option-cases, false, Text, Option, none,
  some, [], ◌∷◌, ◌++◌, length, take, drop, take-append_length, drop-append_length, All, is_empty,
  arith,
}
use sweetcomb.Prelude.Int.{ℤ, to_unsigned}
use sweetcomb.Prelude.Outcome.{Outcome, value, throws, fault, missing_slash, bad_address, ◌>>=◌}
use sweetcomb.Decimal.{show, stoi}
use sweetcomb.Decimal.Roundtrip.{stoi-show, stoi-ne-missing_slash, show-digits, IsDigit}
use sweetcomb.SysUtil.{Addresses, PrintsAddresses}
use sweetcomb.SysUtil.Prefix.{
  Prefix, find_last_of, parse_address, of_string, make_prefix, to_string, empty,
}

-- The text has no slash.
abbrev pub NoSlash : Text → Type 0
NoSlash = All (λ c. c ≢ b'/')

digits-NoSlash : (s : Text) → All IsDigit s → NoSlash s
digits-NoSlash [] h = tt
digits-NoSlash (c ∷ s) h = ((λ e. omega arith), digits-NoSlash s h.1)

find_last_of-NoSlash : (s : Text) → NoSlash s → find_last_of b'/' s ≡ none
unfolding find_last_of
find_last_of-NoSlash [] h = refl
find_last_of-NoSlash (c ∷ s) h = rw (find_last_of-NoSlash s h.1) (ground arith)

find_last_of-append : (s t : Text) → NoSlash t → find_last_of b'/' (s ++ b'/' ∷ t) ≡ some (length s)
unfolding find_last_of
find_last_of-append [] t h = rw (find_last_of-NoSlash t h)
find_last_of-append (c ∷ s) t h = rw (find_last_of-append s t h)

NoSlash-of_find : (s : Text) → find_last_of b'/' s ≡ none → NoSlash s
unfolding find_last_of
NoSlash-of_find [] h = tt
NoSlash-of_find (c ∷ s) h = elim (Option-cases (find_last_of b'/' s)) [
  | inl e ↦ ((λ p. ground arith), NoSlash-of_find s e)
  | inr (j, e) ↦ ground arith
]

-- Where a slash is found, it is the last one.
find_last_of_splits :
    (s : Text) (i : ℕ)
    → find_last_of b'/' s ≡ some i
    → (s ≡ take i s ++ b'/' ∷ drop (suc i) s) × NoSlash (drop (suc i) s)
unfolding find_last_of
find_last_of_splits [] i h = cc
find_last_of_splits (c ∷ s) i h = elim (Option-cases (find_last_of b'/' s)) [
  | inl e ↦
      let at_head : (c ≡ b'/') × (i ≡ 0) = ground arith in
      rw (at_head.1, at_head.0) (refl, NoSlash-of_find s e)
  | inr (j, e) ↦
      let later : i ≡ suc j = ground arith in
      let (l, r) = find_last_of_splits s j e in rw later (ap (λ t. c ∷ t) l, r)
]

is_empty-append : (s : Text) (c : ℕ) (t : Text) → is_empty (s ++ c ∷ t) ≡ false
is_empty-append [] c t = refl
is_empty-append (d ∷ s) c t = refl

module _ {A : Type 0} (B : Addresses A) where
  copy-value :
      (r : Outcome (Prefix A))
      → (r >>= λ tmp. value (record { m_address = tmp.m_address; m_prefix_len = tmp.m_prefix_len }))
        ≡ r
  copy-value (value p) = refl
  copy-value (throws e) = refl
  copy-value (fault u) = refl

  pub make_prefix-of_string : (s : Text) → make_prefix B s ≡ of_string B s
  unfolding make_prefix
  make_prefix-of_string s = copy-value (of_string B s)

  -- Every prefix with a length below 2 ^ 16 is read back from its text by `make_prefix`, if
  -- addresses are read back from theirs.
  pub make_prefix-to_string :
      (p : Prefix A)
      → PrintsAddresses B
      → p.m_prefix_len < 2 ^ 16
      → make_prefix B (to_string B p) ≡ value p
  unfolding of_string to_string
  make_prefix-to_string p prints h =
      let digits : NoSlash (show p.m_prefix_len) = digits-NoSlash _ (show-digits p.m_prefix_len) in
      ground (
        arith,
        make_prefix-of_string (to_string B p),
        find_last_of-append (B.to_string p.m_address) (show p.m_prefix_len) digits,
        take-append_length (B.to_string p.m_address) (b'/' ∷ show p.m_prefix_len),
        prints p.m_address,
        drop-append_length (B.to_string p.m_address) b'/' (show p.m_prefix_len),
        stoi-show p.m_prefix_len (omega arith),
      )

  -- `empty` is false of every prefix, one made by the default constructor included.
  pub empty-false : (p : Prefix A) → empty B p ≡ false
  unfolding empty to_string
  empty-false p = is_empty-append (B.to_string p.m_address) b'/' (show p.m_prefix_len)

  -- What stands around the last slash of an accepted text.
  abbrev pub Accepts : Text → Prefix A → Type 0
  Accepts s p =
      (a b : Text) × (n : ℤ) × (s ≡ a ++ b'/' ∷ b)
      × NoSlash b
      × (B.from_string a ≡ some p.m_address)
      × (stoi b ≡ value n)
      × (p.m_prefix_len ≡ to_unsigned 16 n)

  joined :
      (o : Option A) (r : Outcome ℤ) (p : Prefix A)
      → ((elim o [ none ↦ throws bad_address | some a ↦ value a ]) >>= λ a.
          r >>= λ n. value (record { m_address = a; m_prefix_len = to_unsigned 16 n }))
        ≡ value p
      → (n : ℤ) × (o ≡ some p.m_address) × (r ≡ value n) × (p.m_prefix_len ≡ to_unsigned 16 n)
  joined (some a) (value n) p h = (n, ground arith, refl, ground arith)
  joined none r p h = cc
  joined (some a) (throws e) p h = cc
  joined (some a) (fault u) p h = cc

  accepted :
      (s : Text) (i : ℕ) (p : Prefix A)
      → find_last_of b'/' s ≡ some i
      → of_string B s ≡ value p
      → Accepts s p
  unfolding of_string
  accepted s i p found h =
      let (whole, last) = find_last_of_splits s i found in
      let (n, addr, len, stored) =
        joined (B.from_string (take i s)) (stoi (drop (suc i) s)) p (rw (found, of_string) at h) in
      (take i s, drop (suc i) s, n, whole, last, addr, len, stored)

  -- A text that `make_prefix` accepts is an address, a slash and a length: the address is read from
  -- all that stands before the last slash, and the length, reduced to 16 bits, by `stoi` from all
  -- behind it.
  pub make_prefix_sound : (s : Text) (p : Prefix A) → make_prefix B s ≡ value p → Accepts s p
  unfolding of_string
  make_prefix_sound s p h =
      let read : of_string B s ≡ value p = rw make_prefix-of_string at h in
      elim (Option-cases (find_last_of b'/' s)) [
        | inl e ↦ absurd (ground arith)
        | inr (i, e) ↦ accepted s i p e read
      ]

  -- The exception for a missing slash is thrown for the texts without one, and for no other.
  pub make_prefix-missing_slash_iff :
      (s : Text) → (make_prefix B s ≡ throws missing_slash) ↔ NoSlash s
  unfolding of_string parse_address
  make_prefix-missing_slash_iff s = (
    λ h. elim (Option-cases (find_last_of b'/' s)) [
      | inl e ↦ NoSlash-of_find s e
      | inr (i, e) ↦
          absurd (ground (arith, make_prefix-of_string s, stoi-ne-missing_slash (drop (suc i) s)))
    ],
    λ h. ground (arith, make_prefix-of_string s, find_last_of-NoSlash s h),
  )
