-- ===== src/Plugin/Pid/Laws.antt =====
-- When `get_vpp_pid` finds a process, which one, and what it returns otherwise.
use sweetcomb.Prelude.{
  ℕ, ◌≤◌, ◌≡◌, ◌≢◌, inl, inr, refl, ap, ◌∙◌, Bool, true, false, not, Text, codes, text_eq, is_empty,
  Option, none, List, [], ◌∷◌, ◌++◌, ◌||◌, ◌&&◌, length, length-append, take, take_all, ◌==◌,
  if◌then◌else◌, All, Bool-cases, arith,
}
use sweetcomb.Prelude.Int.{ℤ, neg}
use sweetcomb.Decimal.{atoi}
use sweetcomb.Plugin.Pid.{
  c_string, skip_blanks, up_to_blank, Cmdline, unopened, contents, Dirent, entries, Proc,
  first_token, vpp_full_path_size, is_vpp, filepath, set_errno, found, goes_on, read_cmdline, visit,
  search_vpp, search_listing, get_vpp_pid,
}

-- The command line is VPP's.
unfoldable pub names_vpp : Cmdline → Bool
names_vpp (unopened e) = false
names_vpp (contents text error) = is_vpp (first_token (take vpp_full_path_size text))

module _ (proc : Proc) where
  -- The entry is the directory of a VPP process.
  unfoldable pub is_vpp_entry : Dirent → Bool
  is_vpp_entry d =
      not (text_eq d.d_name (codes ".") || text_eq d.d_name (codes ".."))
      && d.is_dir
      && names_vpp (proc.cmdline (filepath d.d_name))

  unfoldable pub any_vpp : List Dirent → Bool
  any_vpp [] = false
  any_vpp (d ∷ dir) = is_vpp_entry d || any_vpp dir

  nothing_read : is_vpp (first_token (take vpp_full_path_size [])) ≡ false
  unfolding is_vpp first_token c_string skip_blanks up_to_blank text_eq
  nothing_read = refl

  read_cmdline-found :
      (name : Text) (c : Cmdline) (errno : ℕ)
      → names_vpp c ≡ true
      → read_cmdline name c errno ≡ found (atoi name)
  unfolding read_cmdline names_vpp first_token is_vpp text_eq
  read_cmdline-found name (unopened e) errno h = absurd (cc h)
  read_cmdline-found name (contents [] error) errno h = absurd (cc (h, nothing_read))
  read_cmdline-found name (contents (c ∷ text) error) errno h = ground arith

  goes_on_if :
      (b c : Bool) (e : ℕ) (pid : ℤ)
      → (x : ℕ) × ((if b
            then goes_on e
            else if c
            then goes_on e
            else if false
            then found pid
            else goes_on 0)
          ≡ goes_on x)
  goes_on_if true c e pid = (e, refl)
  goes_on_if false true e pid = (e, refl)
  goes_on_if false false e pid = (0, refl)

  read_cmdline-goes_on :
      (name : Text) (c : Cmdline) (errno : ℕ)
      → names_vpp c ≡ false
      → (e : ℕ) × (read_cmdline name c errno ≡ goes_on e)
  unfolding read_cmdline names_vpp
  read_cmdline-goes_on name (unopened e) errno h = (e, refl)
  read_cmdline-goes_on name (contents text error) errno h = rw h (
      goes_on_if (is_empty text) (is_empty (first_token (take vpp_full_path_size text)))
        (set_errno error errno) (atoi name))

  pub visit-found :
      (d : Dirent) (errno : ℕ) → is_vpp_entry d ≡ true → visit proc d errno ≡ found (atoi d.d_name)
  unfolding visit is_vpp_entry
  visit-found d errno h =
      ground (arith, read_cmdline-found d.d_name (proc.cmdline (filepath d.d_name)) errno)

  pub visit-goes_on :
      (d : Dirent) (errno : ℕ) → is_vpp_entry d ≡ false → (e : ℕ) × (visit proc d errno ≡ goes_on e)
  unfolding visit is_vpp_entry
  visit-goes_on d errno h =
      elim (Bool-cases (text_eq d.d_name (codes ".") || text_eq d.d_name (codes ".."))) [
        | inl dots ↦ (errno, ground arith)
        | inr name ↦ elim (Bool-cases d.is_dir) [
          | inl dir ↦
              let (e, r) =
                read_cmdline-goes_on d.d_name (proc.cmdline (filepath d.d_name)) errno
                  (ground arith) in
              (e, ground arith)
          | inr file ↦ (errno, ground arith)
        ]
      ]

  pub any_vpp-false :
      (dir : List Dirent) → All (λ x. is_vpp_entry x ≡ false) dir → any_vpp dir ≡ false
  unfolding any_vpp
  any_vpp-false [] others = refl
  any_vpp-false (d ∷ dir) others = rw others.0 (any_vpp-false dir others.1)

  pub listed_pid :
      (dir : List Dirent) (error : Option ℕ) (errno : ℕ)
      → proc.listing ≡ entries dir error
      → get_vpp_pid proc errno ≡ search_vpp proc dir error errno
  unfolding get_vpp_pid search_listing
  listed_pid dir error errno listed = ap (search_listing proc errno) listed

  pub search_vpp-first :
      (pre post : List Dirent) (d : Dirent) (error : Option ℕ) (errno : ℕ)
      → All (λ x. is_vpp_entry x ≡ false) pre
      → is_vpp_entry d ≡ true
      → search_vpp proc (pre ++ d ∷ post) error errno ≡ atoi d.d_name
  unfolding search_vpp
  search_vpp-first [] post d error errno others vpp = rw (search_vpp, visit-found d errno vpp)
  search_vpp-first (x ∷ pre) post d error errno others vpp =
      let (e, step) = visit-goes_on x errno others.0 in
      rw (search_vpp, step) (search_vpp-first pre post d error e others.1 vpp)

  pub filepath_whole :
      (name : Text) → length name ≤ 255 → filepath name ≡ codes "/proc/" ++ name ++ codes "/cmdline"
  unfolding filepath
  filepath_whole name h =
      take_all 270 (codes "/proc/" ++ name ++ codes "/cmdline")
        (omega (arith, length-append name (codes "/cmdline")))

  search_vpp-stale :
      (pre : List Dirent) (d : Dirent) (errno e : ℕ)
      → All (λ x. is_vpp_entry x ≡ false) pre
      → (text_eq d.d_name (codes ".") || text_eq d.d_name (codes "..")) ≡ false
      → d.is_dir ≡ true
      → proc.cmdline (filepath d.d_name) ≡ unopened e
      → e ≢ 0
      → search_vpp proc (pre ++ d ∷ []) none errno ≡ neg e
  unfolding search_vpp visit read_cmdline
  search_vpp-stale [] d errno e others name dir fails bad =
      let nonzero : (e == 0) ≡ false = ground arith in
      rw (search_vpp, visit, name, dir, fails, nonzero)
  search_vpp-stale (x ∷ pre) d errno e others name dir fails bad =
      let (e', step) = visit-goes_on x errno others.0 in
      rw (search_vpp, step) (search_vpp-stale pre d e' e others.1 name dir fails bad)

  -- If no entry is VPP's and `readdir` reports no error: an error of `fopen` on the last entry, a
  -- directory, stays in `errno` and is returned, as if the listing of /proc had failed, in place
  -- of -ESRCH.
  pub get_vpp_pid_stale :
      (pre : List Dirent) (d : Dirent) (errno e : ℕ)
      → proc.listing ≡ entries (pre ++ d ∷ []) none
      → All (λ x. is_vpp_entry x ≡ false) pre
      → (text_eq d.d_name (codes ".") || text_eq d.d_name (codes "..")) ≡ false
      → d.is_dir ≡ true
      → proc.cmdline (filepath d.d_name) ≡ unopened e
      → e ≢ 0
      → get_vpp_pid proc errno ≡ neg e
  get_vpp_pid_stale pre d errno e listed others name dir fails bad =
      listed_pid (pre ++ d ∷ []) none errno listed
      ∙ search_vpp-stale pre d errno e others name dir fails bad
