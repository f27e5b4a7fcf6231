-- ===== src/Plugin/Pid/Handles.antt =====
-- `get_vpp_pid` of src/plugins/sc_plugins.c with the handles that the process holds: each `opendir`
-- and `fopen`, and the `closedir` and `fclose` before each way out.
pub mod Laws
use sweetcomb.Prelude.{
  ℕ, zero, suc, Bool, true, false, not, ◌||◌, Text, codes, text_eq, is_empty, Option, List, [], ◌∷◌,
  take, ◌==◌, if◌then◌else◌,
}
use sweetcomb.Prelude.Int.{ℤ, pos, neg}
use sweetcomb.Decimal.{atoi}
use sweetcomb.Plugin.Pid.{
  Cmdline, unopened, contents, Dirent, Listing, unreadable, entries, Proc, first_token,
  vpp_full_path_size, is_vpp, filepath, set_errno, Step, found, goes_on,
}

-- How many directories and files are open.
pub record Handles : Type 0 where
  pub dirs : ℕ
  pub files : ℕ

abbrev pub less : ℕ → ℕ
less zero = zero
less (suc n) = n

abbrev pub opendir : Handles → Handles
opendir h = record h { dirs = suc h.dirs }

abbrev pub closedir : Handles → Handles
closedir h = record h { dirs = less h.dirs }

abbrev pub fopen : Handles → Handles
fopen h = record h { files = suc h.files }

abbrev pub fclose : Handles → Handles
fclose h = record h { files = less h.files }

-- What follows an `fopen` that succeeds.
unfoldable pub read_handles : Text → Text → Option ℕ → ℕ → Handles → Step × Handles
read_handles d_name text error errno h =
    let first = first_token (take vpp_full_path_size text) in
    if is_empty text
    then (goes_on (set_errno error errno), fclose h)
    else if is_empty first
    then (goes_on (set_errno error errno), fclose h)
    else if is_vpp first
    then (found (atoi d_name), closedir (fclose h))
    else (goes_on 0, fclose h)

unfoldable pub open_handles : Text → Cmdline → ℕ → Handles → Step × Handles
open_handles d_name (unopened e) errno h = (goes_on e, h)
open_handles d_name (contents text error) errno h = read_handles d_name text error errno (fopen h)

module _ (proc : Proc) where
  unfoldable pub visit_handles : Dirent → ℕ → Handles → Step × Handles
  visit_handles ptr errno h =
      if text_eq ptr.d_name (codes ".") || text_eq ptr.d_name (codes "..")
      then (goes_on errno, h)
      else if not ptr.is_dir
      then (goes_on errno, h)
      else open_handles ptr.d_name (proc.cmdline (filepath ptr.d_name)) errno h

  unfoldable pub search_handles : List Dirent → Option ℕ → ℕ → Handles → ℤ × Handles
  search_handles [] readdir_error errno h =
      let errno' = set_errno readdir_error errno in
      if errno' == 0 then (neg 3, closedir h) else (neg errno', h)
  search_handles (ptr ∷ rest) readdir_error errno h = elim (visit_handles ptr errno h).0 [
    | found pid ↦ (pid, (visit_handles ptr errno h).1)
    | goes_on errno' ↦ search_handles rest readdir_error errno' (visit_handles ptr errno h).1
  ]

  unfoldable pub listing_handles : ℕ → Listing → Handles → ℤ × Handles
  listing_handles errno (unreadable e) h = (neg e, h)
  listing_handles errno (entries dir readdir_error) h =
      search_handles dir readdir_error errno (opendir h)

  -- `get_vpp_pid`, with the handles that are open before and behind it.
  unfoldable pub get_vpp_pid_handles : ℕ → Handles → ℤ × Handles
  get_vpp_pid_handles errno h = listing_handles errno proc.listing h
