-- ===== src/Plugin/Pid/Handles/Laws.antt =====
-- When `get_vpp_pid` of src/plugins/sc_plugins.c closes what it opens.
use sweetcomb.Prelude.{
  ℕ, zero, suc, ◌≡◌, ◌≢◌, ◌⊎◌, inl, inr, refl, ap, sym, ◌∙◌, Bool, true, false, ◌||◌, Text, codes,
  text_eq, is_empty, Option, none, List, [], ◌∷◌, ◌++◌, take, ◌==◌, if◌then◌else◌, All, All-append,
  Bool-cases, arith,
}
use sweetcomb.Prelude.Int.{ℤ, neg}
use sweetcomb.Decimal.{atoi}
use sweetcomb.Plugin.Pid.{
  Cmdline, unopened, contents, Dirent, Listing, unreadable, entries, Proc, first_token,
  vpp_full_path_size, is_vpp, filepath, set_errno, Step, found, goes_on, read_cmdline, visit,
  search_vpp, search_listing, get_vpp_pid,
}
use sweetcomb.Plugin.Pid.Laws.{
  is_vpp_entry, any_vpp, any_vpp-false, visit-found, visit-goes_on, get_vpp_pid_stale,
}
use sweetcomb.Plugin.Pid.Handles.{
  Handles, opendir, closedir, read_handles, open_handles, visit_handles, search_handles,
  listing_handles, get_vpp_pid_handles,
}

abbrev IsStep : Step → Handles → Step × Handles → Type 0
IsStep s h r =
    (r.0 ≡ s)
    × (((e : ℕ) × (s ≡ goes_on e) × (r.1 ≡ h)) ⊎ ((p : ℤ) × (s ≡ found p) × (r.1 ≡ closedir h)))

open_handles-IsStep :
    (name : Text) (c : Cmdline) (errno : ℕ) (h : Handles)
    → IsStep (read_cmdline name c errno) h (open_handles name c errno h)
unfolding open_handles read_handles read_cmdline
open_handles-IsStep name (unopened e) errno h = (refl, inl (e, refl, refl))
open_handles-IsStep name (contents text error) errno h =
    let first = first_token (take vpp_full_path_size text) in
    elim (Bool-cases (is_empty text)) [
      | inl nothing ↦ rw nothing (refl, inl (set_errno error errno, refl, refl))
      | inr some_text ↦ elim (Bool-cases (is_empty first)) [
        | inl blank ↦ rw (some_text, blank) (refl, inl (set_errno error errno, refl, refl))
        | inr token ↦ elim (Bool-cases (is_vpp first)) [
          | inl vpp ↦ rw (some_text, token, vpp) (refl, inr (atoi name, refl, refl))
          | inr other ↦ rw (some_text, token, other) (refl, inl (0, refl, refl))
        ]
      ]
    ]

-- How the search ends, where the first flag says that some entry is VPP's, and the second that /proc
-- can be listed: with everything closed, or with /proc open behind an error.
abbrev pub IsSettled : Bool → Bool → Handles → ℤ × Handles → Type 0
IsSettled any listed h r =
    ((r.1 ≡ h) × ((any ≡ true) ⊎ (r.0 ≡ neg 3) ⊎ (listed ≡ false)))
    ⊎ ((r.1 ≡ opendir h) × ((e : ℕ) × (e ≢ 0) × (r.0 ≡ neg e)) × (listed ≡ true) × (any ≡ false))

ended-IsSettled :
    (errno : ℕ) (h : Handles)
    → IsSettled false true h
        (if errno == 0 then (neg 3, closedir (opendir h)) else (neg errno, opendir h))
ended-IsSettled errno h = elim (Bool-cases (errno == 0)) [
  | inl clear ↦ rw clear (inl (refl, inr (inl refl)))
  | inr set ↦ rw set (inr (refl, (errno, (λ e. ground arith), refl), refl, refl))
]

neg_injective : (a b : ℕ) → neg a ≡ neg b → a ≡ b
neg_injective zero zero e = refl
neg_injective zero (suc b) e = absurd cc
neg_injective (suc a) zero e = absurd cc
neg_injective (suc a) (suc b) e = cc

-- /proc can be listed.
abbrev pub is_listed : Listing → Bool
is_listed (unreadable e) = false
is_listed (entries dir error) = true

-- /proc can be listed, and some entry is the directory of a VPP process.
abbrev pub lists_vpp : Proc → Listing → Bool
lists_vpp proc (unreadable e) = false
lists_vpp proc (entries dir error) = any_vpp proc dir

module _ (proc : Proc) where
  visit_handles-IsStep :
      (ptr : Dirent) (errno : ℕ) (h : Handles)
      → IsStep (visit proc ptr errno) h (visit_handles proc ptr errno h)
  unfolding visit visit_handles
  visit_handles-IsStep ptr errno h =
      elim (Bool-cases (text_eq ptr.d_name (codes ".") || text_eq ptr.d_name (codes ".."))) [
        | inl dots ↦ rw dots (refl, inl (errno, refl, refl))
        | inr name ↦ elim (Bool-cases ptr.is_dir) [
          | inr file ↦ rw (name, file) (refl, inl (errno, refl, refl))
          | inl dir ↦
              rw (name, dir)
                (open_handles-IsStep ptr.d_name (proc.cmdline (filepath ptr.d_name)) errno h)
        ]
      ]

  is_vpp_entry-found :
      (d : Dirent) (errno : ℕ) (pid : ℤ)
      → visit proc d errno ≡ found pid
      → is_vpp_entry proc d ≡ true
  is_vpp_entry-found d errno pid h = elim (Bool-cases (is_vpp_entry proc d)) [
    | inl vpp ↦ vpp
    | inr other ↦ let (e, goes) = visit-goes_on proc d errno other in absurd cc
  ]

  is_vpp_entry-goes_on :
      (d : Dirent) (errno e : ℕ) → visit proc d errno ≡ goes_on e → is_vpp_entry proc d ≡ false
  is_vpp_entry-goes_on d errno e h = elim (Bool-cases (is_vpp_entry proc d)) [
    | inl vpp ↦ let finds = visit-found proc d errno vpp in absurd cc
    | inr other ↦ other
  ]

  search_handles-IsSettled :
      (dir : List Dirent) (error : Option ℕ) (errno : ℕ) (h : Handles)
      → (let r = search_handles proc dir error errno (opendir h) in
          (r.0 ≡ search_vpp proc dir error errno) × IsSettled (any_vpp proc dir) true h r)
  unfolding search_handles search_vpp any_vpp
  search_handles-IsSettled [] error errno h =
      (ground (arith), ended-IsSettled (set_errno error errno) h)
  search_handles-IsSettled (ptr ∷ rest) error errno h =
      let (step, way) = visit_handles-IsStep ptr errno (opendir h) in
      elim way [
        | inl (e, goes, same) ↦
            rw (search_handles, search_vpp, step, goes, same, is_vpp_entry-goes_on ptr errno e goes)
              (search_handles-IsSettled rest error e h)
        | inr (pid, finds, closed) ↦
            rw
              (
                search_handles,
                search_vpp,
                step,
                finds,
                closed,
                is_vpp_entry-found ptr errno pid finds,
              )
              (refl, inl (refl, inl refl))
      ]

  listing_handles-IsSettled :
      (l : Listing) (errno : ℕ) (h : Handles)
      → (let r = listing_handles proc errno l h in
          (r.0 ≡ search_listing proc errno l) × IsSettled (lists_vpp proc l) (is_listed l) h r)
  unfolding listing_handles search_listing
  listing_handles-IsSettled (unreadable e) errno h = (refl, inl (refl, inr (inr refl)))
  listing_handles-IsSettled (entries dir error) errno h = search_handles-IsSettled dir error errno h

  -- For any /proc, `errno` and handles that are open before: the search with its handles returns
  -- what the search without them does. Behind it the same handles are open, and then some entry
  -- of /proc is the directory of a VPP process, or the result is -ESRCH, or /proc cannot be
  -- opened; or one directory more is open, and then /proc has been opened, no entry is VPP's, and
  -- an error is returned. No file stays open.
  pub get_vpp_pid_handles-IsSettled :
      (errno : ℕ) (h : Handles)
      → (let r = get_vpp_pid_handles proc errno h in
          (r.0 ≡ get_vpp_pid proc errno)
          × IsSettled (lists_vpp proc proc.listing) (is_listed proc.listing) h r)
  unfolding get_vpp_pid_handles get_vpp_pid
  get_vpp_pid_handles-IsSettled errno h = listing_handles-IsSettled proc.listing errno h

  -- If no entry is VPP's and `readdir` reports no error, and `fopen` fails on the last entry, a
  -- directory, by an error other than ESRCH: that error stays in `errno` and is returned, as if the
  -- listing of /proc had failed, and the directory /proc stays open.
  pub get_vpp_pid_leaks :
      (pre : List Dirent) (d : Dirent) (errno e : ℕ) (h : Handles)
      → proc.listing ≡ entries (pre ++ d ∷ []) none
      → All (λ x. is_vpp_entry proc x ≡ false) pre
      → (text_eq d.d_name (codes ".") || text_eq d.d_name (codes "..")) ≡ false
      → d.is_dir ≡ true
      → proc.cmdline (filepath d.d_name) ≡ unopened e
      → e ≢ 0
      → e ≢ 3
      → get_vpp_pid_handles proc errno h ≡ (neg e, opendir h)
  unfolding visit read_cmdline
  get_vpp_pid_leaks pre d errno e h listed others name dir fails bad found_none =
      let (same, settled) = get_vpp_pid_handles-IsSettled errno h in
      let stale = same ∙ get_vpp_pid_stale proc pre d errno e listed others name dir fails bad in
      let opened = ap is_listed listed in
      let none_is_vpp =
        ap (lists_vpp proc) listed
        ∙ any_vpp-false proc (pre ++ d ∷ []) (
            All-append (λ x. is_vpp_entry proc x ≡ false) pre (d ∷ []) others
              (is_vpp_entry-goes_on d errno e (rw (visit, name, dir, fails)), tt)) in
      elim settled [
        | inr (held, ended, was, none_vpp) ↦ cc
        | inl (held, inl any) ↦ absurd cc
        | inl (held, inr (inl gone)) ↦ absurd (found_none (neg_injective e 3 (sym stale ∙ gone)))
        | inl (held, inr (inr closed)) ↦ absurd cc
      ]
