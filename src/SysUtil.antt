-- ===== src/SysUtil.antt =====
-- src/plugins/sys_util.h and sys_util.cpp: IP prefixes and netmasks. Boost's addresses and
-- `inet_pton` are parameters.
pub mod Prefix
pub mod Netmask
use sweetcomb.Prelude.{ℕ, Bool, Text, Option, ◌≡◌, some}

-- The four bytes that `inet_pton` writes for an IPv4 address, first byte first.
pub record Quad : Type 0 where
  pub b0 : ℕ
  pub b1 : ℕ
  pub b2 : ℕ
  pub b3 : ℕ

-- `boost::asio::ip::address` as the type `A`, with what the plugin calls.
pub record Addresses (A : Type 0) : Type 0 where
  -- `address::from_string`, where `none` is the exception of a text that is no address
  pub from_string : Text → Option A
  pub to_string : A → Text
  pub is_v4 : A → Bool
  pub is_v6 : A → Bool
  -- the address that `address()` makes
  pub default : A
  -- `inet_pton` with `AF_INET`, where `none` is a result that is not positive
  pub inet_pton4 : Text → Option Quad
  -- whether `inet_pton` with `AF_INET6` accepts the text, and then writes sixteen bytes
  pub inet_pton6 : Text → Bool

-- An address is read back from its text.
abbrev pub PrintsAddresses : {A : Type 0} → Addresses A → Type 0
PrintsAddresses {A} B = (a : A) → B.from_string (B.to_string a) ≡ some a
