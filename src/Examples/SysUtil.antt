-- ===== src/Examples/SysUtil.antt =====
-- Prefixes and netmasks.
use sweetcomb.Prelude.{codes, ◌^◌, ◌≡◌, refl, ◌≤◌, ℕ, Text, arith}
use sweetcomb.Prelude.Outcome.{value}
use sweetcomb.SysUtil.Prefix.{Prefix, make_prefix, to_string, of_string, find_last_of}
use sweetcomb.SysUtil.Prefix.Laws.{Accepts, make_prefix-to_string, make_prefix_sound}
use sweetcomb.SysUtil.Netmask.{netmask_to_plen, load_le}
use sweetcomb.SysUtil.Netmask.Laws.{HasBits, netmask_to_plen_bits}
use sweetcomb.Examples.World.{texts_as_addresses, quad_255_255_240_0}
use sweetcomb.Decimal.{show, stoi, atoi}
use sweetcomb.Prelude.Int.{neg}

abbrev ten : Prefix Text
ten = record { m_address = codes "10.0.0.0"; m_prefix_len = 8 }

ten_as_text : to_string (texts_as_addresses quad_255_255_240_0) ten ≡ codes "10.0.0.0/8"
unfolding to_string show
ten_as_text = refl

make_prefix-to_string_example :
    make_prefix
      (texts_as_addresses quad_255_255_240_0)
      (to_string (texts_as_addresses quad_255_255_240_0) ten)
    ≡ value ten
make_prefix-to_string_example =
    make_prefix-to_string (texts_as_addresses quad_255_255_240_0) ten (λ a. refl) (omega arith)

ten_read : make_prefix (texts_as_addresses quad_255_255_240_0) (codes "10.0.0.0/8") ≡ value ten
unfolding make_prefix of_string stoi find_last_of
ten_read = refl

make_prefix_sound_example : Accepts (texts_as_addresses quad_255_255_240_0) (codes "10.0.0.0/8") ten
make_prefix_sound_example =
    make_prefix_sound (texts_as_addresses quad_255_255_240_0) (codes "10.0.0.0/8") ten ten_read

netmask_to_plen_bits_example :
    (k : ℕ) × (k ≤ 32)
    × HasBits k (load_le quad_255_255_240_0)
    × (netmask_to_plen (texts_as_addresses quad_255_255_240_0) (codes "255.255.240.0") ≡ value k)
netmask_to_plen_bits_example =
    netmask_to_plen_bits (texts_as_addresses quad_255_255_240_0) (codes "255.255.240.0") refl
      quad_255_255_240_0 refl (omega arith)

atoi_sign : atoi (codes " -5x") ≡ neg 5
unfolding atoi
atoi_sign = refl

-- Beyond `int`, and beyond `long`.
atoi_beyond_int : atoi (codes "2147483648") ≡ neg (2 ^ 31)
unfolding atoi
atoi_beyond_int = refl

atoi_beyond_long : atoi (codes "99999999999999999999") ≡ neg 1
unfolding atoi
atoi_beyond_long = refl
