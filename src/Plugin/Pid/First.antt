-- ===== src/Plugin/Pid/First.antt =====
-- The pid that `get_vpp_pid` returns where a VPP process runs.
use sweetcomb.Prelude.{
  ℕ, ◌≤◌, ◌<◌, ◌^◌, ◌≡◌, ◌⊎◌, inl, inr, refl, ◌∙◌, true, false, Text, codes, text_eq, is_empty,
  Option, List, [], ◌∷◌, ◌++◌, ◌||◌, length, All, arith,
}
use sweetcomb.Prelude.Int.{pos}
use sweetcomb.Decimal.{show}
use sweetcomb.Decimal.Roundtrip.{atoi-show, show-digits, IsDigit}
use sweetcomb.Plugin.Pid.{contents, Dirent, entries, Proc, get_vpp_pid}
use sweetcomb.Plugin.Pid.Command.{IsPlain, IsEnd, is_vpp-first_token}
use sweetcomb.Plugin.Pid.Laws.{
  names_vpp, is_vpp_entry, listed_pid, search_vpp-first, filepath_whole,
}

module _ (proc : Proc) where
  -- The entry is the directory of the process `pid`, whose command starts with VPP's name.
  pub record RunsVpp (pid : ℕ) (d : Dirent) : Type 0 where
    pub named : d.d_name ≡ show pid
    pub directory : d.is_dir ≡ true
    pub in_int : pid < 2 ^ 31
    pub fits : length (show pid) ≤ 255
    pub prog : Text
    pub sep : ℕ
    pub rest : Text
    pub error : Option ℕ
    pub command :
        proc.cmdline (codes "/proc/" ++ show pid ++ codes "/cmdline")
        ≡ contents (prog ++ sep ∷ rest) error
    pub vpp : (prog ≡ codes "vpp") ⊎ (prog ≡ codes "/usr/bin/vpp")
    pub ends : IsEnd sep

  digits_not_dots :
      (s : Text) → All IsDigit s → (text_eq s (codes ".") || text_eq s (codes "..")) ≡ false
  unfolding text_eq
  digits_not_dots [] h = refl
  digits_not_dots (c ∷ s) h = ground arith

  vpp_names :
      (prog : Text)
      → (prog ≡ codes "vpp") ⊎ (prog ≡ codes "/usr/bin/vpp")
      → (is_empty prog ≡ false)
        × All IsPlain prog
        × ((text_eq prog (codes "vpp") || text_eq prog (codes "/usr/bin/vpp")) ≡ true)
  unfolding text_eq
  vpp_names prog (inl e) = rw e (ground arith)
  vpp_names prog (inr e) = rw e (ground arith)

  RunsVpp-is_vpp_entry : (pid : ℕ) (d : Dirent) → RunsVpp pid d → is_vpp_entry proc d ≡ true
  unfolding is_vpp_entry names_vpp
  RunsVpp-is_vpp_entry pid d h =
      let (full, plain, right) = vpp_names h.prog h.vpp in
      let dots = digits_not_dots (show pid) (show-digits pid) in
      let path = filepath_whole proc (show pid) h.fits in
      let command = is_vpp-first_token h.prog h.sep h.rest full plain h.ends in
      rw (h.named, dots, h.directory, path, h.command, command, right)

  -- The pid of the first VPP process of a listing of /proc is returned, whatever `errno` holds:
  -- of the first entry that is the directory of a process whose pid is in the range of int, with a
  -- name of at most 255 bytes, and whose command line starts with "vpp" or "/usr/bin/vpp" and a 0 or a blank.
  pub get_vpp_pid_first :
      (pre post : List Dirent) (d : Dirent) (error : Option ℕ) (errno pid : ℕ)
      → proc.listing ≡ entries (pre ++ d ∷ post) error
      → All (λ x. is_vpp_entry proc x ≡ false) pre
      → RunsVpp pid d
      → get_vpp_pid proc errno ≡ pos pid
  get_vpp_pid_first pre post d error errno pid listed others runs =
      listed_pid proc (pre ++ d ∷ post) error errno listed
      ∙ search_vpp-first proc pre post d error errno others (RunsVpp-is_vpp_entry pid d runs)
      ∙ rw runs.named (atoi-show pid runs.in_int)
