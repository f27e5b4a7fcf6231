-- ===== src/SysUtil/Netmask/Laws.antt =====
-- The loop of `netmask_to_plen`, and its result on netmasks.
use native.Mathlib.Nat.{pow-suc, zero-add}
use Prim.Native.Nat.{min}
use sweetcomb.Prelude.{
  ℕ, zero, suc, ◌+◌, ◌-◌, ◌*◌, ◌/◌, ◌%◌, ◌^◌, ◌≤◌, ◌<◌, ◌≡◌, refl, ◌↔◌, ◌⊎◌, Text, inl, inr, ap,
  Bool, Bool-cases, true, false, ◌∙◌, Option-cases, if◌then◌else◌, none, some, ltb, ◌==◌, arith,
}
use sweetcomb.Prelude.Outcome.{value, throws, bad_netmask}
use sweetcomb.SysUtil.{Addresses, Quad}
use sweetcomb.SysUtil.Netmask.{load_le, shift_out, loop_fuel, plen_of, netmask_to_plen}

-- The bytes of an address.
abbrev pub IsQuad : Quad → Type 0
IsQuad q = (q.b0 < 256) × (q.b1 < 256) × (q.b2 < 256) × (q.b3 < 256)

-- What `inet_pton` writes are bytes.
abbrev pub WritesBytes : {A : Type 0} → Addresses A → Type 0
WritesBytes B = (t : Text) (q : Quad) → B.inet_pton4 t ≡ some q → IsQuad q

-- `n` has exactly `k` bits.
abbrev pub HasBits : ℕ → ℕ → Type 0
HasBits zero n = n ≡ 0
HasBits (suc k) n = (2 ^ k ≤ n) × (n < 2 ^ suc k)

shift_out-HasBits :
    (f n i k : ℕ) → HasBits k n → i + k < 256 → k < f → shift_out f n i ≡ some (i + k)
unfolding shift_out
shift_out-HasBits zero n i k b small enough = absurd (omega arith)
shift_out-HasBits (suc f) n i zero b small enough = ground arith
shift_out-HasBits (suc f) n i (suc zero) b small enough =
    ground (arith, shift_out-HasBits f (n / 2) ((i + 1) % 2 ^ 8) 0)
shift_out-HasBits (suc f) n i (suc (suc k)) b small enough =
    ground
      (arith, pow-suc 2 k, pow-suc 2 (suc k), shift_out-HasBits f (n / 2) ((i + 1) % 2 ^ 8) (suc k))

-- Every number below 2 ^ w has at most w bits.
bits_of : (w n : ℕ) → n < 2 ^ w → (k : ℕ) × (k ≤ w) × HasBits k n
bits_of zero n h = (0, omega arith, omega arith)
bits_of (suc w) n h = elim (Bool-cases (ltb n (2 ^ w))) [
  | inl small ↦ let (k, le, b) = bits_of w n (ground arith) in (k, omega arith, b)
  | inr big ↦ (suc w, omega arith, ground arith)
]

load_le-lt : (q : Quad) → IsQuad q → load_le q < 2 ^ 32
load_le-lt q h = omega arith

plen_of_bits :
    (q : Quad) → IsQuad q → (k : ℕ) × (k ≤ 32) × HasBits k (load_le q) × (plen_of q ≡ some k)
unfolding plen_of
plen_of_bits q h =
    let (k, le, b) = bits_of 32 (load_le q) (load_le-lt q h) in
    (
      k,
      le,
      b,
      shift_out-HasBits loop_fuel (load_le q) 0 k b (omega arith) (omega arith)
          ∙ ap some (zero-add k),
    )

-- The octets of the netmask of prefix length `p`: `p` ones and then zeros, first octet first.
abbrev pub mask_octet : ℕ → ℕ
mask_octet bits = 256 - 2 ^ (8 - min 8 bits)

abbrev pub mask_quad : ℕ → Quad
mask_quad p = record {
  b0 = mask_octet p;
  b1 = mask_octet (p - 8);
  b2 = mask_octet (p - 16);
  b3 = mask_octet (p - 24);
}

abbrev octets_up : ℕ → ℕ
octets_up p = 8 * ((p + 7) / 8)

rounds_up : ℕ → Bool
rounds_up p = elim (plen_of (mask_quad p)) [ some i ↦ i == octets_up p | none ↦ false ]

-- The prefix lengths below `n` are all rounded up.
table : ℕ → Bool
table zero = true
table (suc p) = if rounds_up p then table p else false

table_entry : (p n : ℕ) → p < n → table n ≡ true → rounds_up p ≡ true
unfolding table
table_entry p zero below t = absurd (omega arith)
table_entry p (suc n) below t = elim (Bool-cases (p == n)) [
  | inl last ↦ ground arith
  | inr earlier ↦ table_entry p n (ground arith) (ground arith)
]

table_33 : table 33 ≡ true
unfolding table rounds_up plen_of
table_33 = refl

plen_of-mask_quad : (p : ℕ) → p ≤ 32 → plen_of (mask_quad p) ≡ some (octets_up p)
unfolding rounds_up
plen_of-mask_quad p h =
    let r = table_entry p 33 (omega arith) table_33 in
    elim (Option-cases (plen_of (mask_quad p))) [
      | inl e ↦ absurd (ground arith)
      | inr (i, e) ↦ ground arith
    ]

module _ {A : Type 0} (B : Addresses A) (a : A) (v4 : B.is_v4 a ≡ true) where
  -- For an IPv4 address whose text `inet_pton` reads, the result is the number of bits of the
  -- address loaded as a little-endian number, at most 32: the loop ends and the counter does not
  -- wrap.
  pub netmask_to_plen_bits :
      (q : Quad)
      → B.inet_pton4 (B.to_string a) ≡ some q
      → IsQuad q
      → (k : ℕ) × (k ≤ 32) × HasBits k (load_le q) × (netmask_to_plen B a ≡ value k)
  unfolding netmask_to_plen
  netmask_to_plen_bits q read h = let (k, le, b, e) = plen_of_bits q h in (k, le, b, ground arith)

  pub netmask_to_plen_ends :
      WritesBytes B
      → (netmask_to_plen B a ≡ throws bad_netmask) ⊎ ((k : ℕ) × (netmask_to_plen B a ≡ value k))
  unfolding netmask_to_plen
  netmask_to_plen_ends bytes = elim (Option-cases (B.inet_pton4 (B.to_string a))) [
    | inl unread ↦ inl (ground arith)
    | inr (q, read) ↦
        let (k, le, b, e) = netmask_to_plen_bits q read (bytes (B.to_string a) q read) in inr (k, e)
  ]

  -- An IPv4 address whose text `inet_pton` reads as the netmask of `p` ones, at most 32, is
  -- converted to `p` rounded up to whole octets, so the conversion is right exactly for the
  -- lengths that are multiples of 8.
  pub netmask_to_plen-mask_quad :
      (p : ℕ)
      → p ≤ 32
      → B.inet_pton4 (B.to_string a) ≡ some (mask_quad p)
      → (netmask_to_plen B a ≡ value (8 * ((p + 7) / 8)))
        × ((netmask_to_plen B a ≡ value p) ↔ (p % 8 ≡ 0))
  unfolding netmask_to_plen
  netmask_to_plen-mask_quad p h read =
      let e = plen_of-mask_quad p h in
      (ground arith, ((λ right. ground arith), (λ whole. ground arith)))
