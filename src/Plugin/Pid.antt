-- ===== src/Plugin/Pid.antt =====
-- `get_vpp_pid` of src/plugins/sc_plugins.c: the search for a VPP process in /proc. The listing of
-- /proc and the files in it are a parameter, and so is what `errno` holds on entry.
pub mod Command
pub mod Laws
pub mod First
pub mod Handles
use sweetcomb.Prelude.{
  ℕ, zero, suc, Bool, true, false, not, ◌||◌, Text, codes, text_eq, is_empty, Option, none, some,
  List, [], ◌∷◌, ◌++◌, take, ◌==◌, if◌then◌else◌,
}
use sweetcomb.Prelude.Int.{ℤ, pos, neg}
use sweetcomb.Decimal.{atoi}

-- `fopen` and `fread` of a `cmdline` file: an error of `fopen` is its `errno`; `fread` gives the bytes
-- that can be read, and if that ends in an error, its `errno`.
pub data Cmdline : Type 0 where
  unopened : ℕ → Cmdline
  contents : Text → Option ℕ → Cmdline

-- `struct dirent`
pub record Dirent : Type 0 where
  pub d_name : Text
  pub is_dir : Bool

-- `opendir("/proc")` gives an `errno` or the entries, and the last `readdir` leaves `errno` as it
-- is at the end of the directory, or sets it on an error.
pub data Listing : Type 0 where
  unreadable : ℕ → Listing
  entries : List Dirent → Option ℕ → Listing

pub record Proc : Type 0 where
  pub listing : Listing
  pub cmdline : Text → Cmdline

-- A C string ends before its first 0.
unfoldable pub c_string : Text → Text
c_string [] = []
c_string (c ∷ s) = if c == 0 then [] else c ∷ c_string s

unfoldable pub skip_blanks : Text → Text
skip_blanks [] = []
skip_blanks (c ∷ s) = if c == b' ' then skip_blanks s else c ∷ s

unfoldable pub up_to_blank : Text → Text
up_to_blank [] = []
up_to_blank (c ∷ s) = if c == b' ' then [] else c ∷ up_to_blank s

-- `strtok(filetext, " ")`, where no token is the empty text
unfoldable pub first_token : Text → Text
first_token s = up_to_blank (skip_blanks (c_string s))

-- `sizeof(VPP_FULL_PATH)` bytes are read at most.
abbrev pub vpp_full_path_size : ℕ
vpp_full_path_size = 13

unfoldable pub is_vpp : Text → Bool
is_vpp first = text_eq first (codes "vpp") || text_eq first (codes "/usr/bin/vpp")

-- `snprintf(filepath, CMDLINE_MAX, "/proc/%s/cmdline", ptr->d_name)`, with `CMDLINE_MAX` 271
unfoldable pub filepath : Text → Text
filepath d_name = take 270 (codes "/proc/" ++ d_name ++ codes "/cmdline")

abbrev pub set_errno : Option ℕ → ℕ → ℕ
set_errno none errno = errno
set_errno (some e) errno = e

-- What an iteration of the loop comes to: the pid, or the next entry with this `errno`.
pub data Step : Type 0 where
  found : ℤ → Step
  goes_on : ℕ → Step

-- The iteration behind `fopen`. `errno` is set to 0 only at its end.
unfoldable pub read_cmdline : Text → Cmdline → ℕ → Step
read_cmdline d_name (unopened e) errno = goes_on e
read_cmdline d_name (contents text error) errno =
    let first = first_token (take vpp_full_path_size text) in
    if is_empty text
    then goes_on (set_errno error errno)
    else if is_empty first
    then goes_on (set_errno error errno)
    else if is_vpp first
    then found (atoi d_name)
    else goes_on 0

module _ (proc : Proc) where
  unfoldable pub visit : Dirent → ℕ → Step
  visit ptr errno =
      if text_eq ptr.d_name (codes ".") || text_eq ptr.d_name (codes "..")
      then goes_on errno
      else if not ptr.is_dir
      then goes_on errno
      else read_cmdline ptr.d_name (proc.cmdline (filepath ptr.d_name)) errno

  -- The loop over the entries and what follows it; 3 is `ESRCH`.
  unfoldable pub search_vpp : List Dirent → Option ℕ → ℕ → ℤ
  search_vpp [] readdir_error errno =
      let errno' = set_errno readdir_error errno in if errno' == 0 then neg 3 else neg errno'
  search_vpp (ptr ∷ rest) readdir_error errno = elim (visit ptr errno) [
    | found pid ↦ pid
    | goes_on errno' ↦ search_vpp rest readdir_error errno'
  ]

  -- What follows `opendir`.
  unfoldable pub search_listing : ℕ → Listing → ℤ
  search_listing errno (unreadable e) = neg e
  search_listing errno (entries dir readdir_error) = search_vpp dir readdir_error errno

  unfoldable pub get_vpp_pid : ℕ → ℤ
  get_vpp_pid errno = search_listing errno proc.listing
