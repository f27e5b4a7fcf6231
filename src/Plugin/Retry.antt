-- ===== src/Plugin/Retry.antt =====
-- Loading the plugin once more after an init function has failed: `sc_call_all_init_function` of
-- src/plugins/sc_init.c marks a function before it calls it.
use sweetcomb.Prelude.{
  ℕ, ◌≡◌, ◌<◌, refl, ap, ◌∙◌, true, false, codes, [], ◌∷◌, ◌++◌, length, subst, if◌then◌else◌,
  Bool-cases, inl, inr, arith,
}
use sweetcomb.Prelude.Int.{is_negative}
use sweetcomb.Prelude.Outcome.{value}
use sweetcomb.Sysrepo.{SrError, ok, disconnect, is_ok, is_ok_eq}
use sweetcomb.Init.Lists.{Entries, Represents}
use sweetcomb.Init.Calls.{session_only, call_entries}
use sweetcomb.Init.Again.{AllCalled, call_entries-AllCalled, length-call_entries}
use sweetcomb.Plugin.Pid.{Proc, get_vpp_pid}
use sweetcomb.Plugin.Life.{Hardware, Plugin, returned, sr_plugin_init_cb}
use sweetcomb.Plugin.Life.Laws.{Connects, sr_plugin_init_cb_runs}

module _ {S : Type 0} (act : ℕ → S → SrError × S) where
  -- The walk stops at the entry whose function fails, and has marked it.
  call_entries-failing :
      (pre : Entries) (f : ℕ) (post : Entries) (s : S)
      → (let r = call_entries act ok pre s in
          r.0 ≡ ok
          → is_ok (act f r.2).0 ≡ false
          → call_entries act ok (pre ++ (f, false) ∷ post) s
            ≡ ((act f r.2).0, r.1 ++ (f, true) ∷ post, (act f r.2).1))
  unfolding call_entries
  call_entries-failing [] f post s fine bad = rw bad
  call_entries-failing ((g, true) ∷ pre) f post s fine bad =
      rw (call_entries-failing pre f post s fine bad)
  call_entries-failing ((g, false) ∷ pre) f post s fine bad =
      elim (Bool-cases (is_ok (act g s).0)) [
        | inl good ↦
            let same = is_ok_eq (act g s).0 good in
            let fine' = rw (call_entries, good, same) at fine in
            let bad' = rw (call_entries, good, same) at bad in
            rw (good, same, call_entries-failing pre f post (act g s).1 fine' bad')
        | inr stops ↦ absurd (ground arith)
      ]

  -- The walk passes over entries that are marked.
  call_entries-marked :
      (pre post : Entries) (s : S)
      → AllCalled pre
      → call_entries act ok (pre ++ post) s
        ≡ (let r = call_entries act ok post s in (r.0, pre ++ r.1, r.2))
  unfolding call_entries
  call_entries-marked [] post s h = refl
  call_entries-marked ((g, true) ∷ pre) post s h = rw (call_entries-marked pre post s h.1)
  call_entries-marked ((g, false) ∷ pre) post s h = cc (h.0)

module _ {S : Type 0} (hw : Hardware S) (act : ℕ → S → SrError × S) where
  -- If the connection succeeds within the attempts and VOM is populated, each of the two times
  -- that the plugin is loaded, and the init functions leave the lists alone: when the first
  -- loading fails in one of the init functions, the second calls neither that function nor those
  -- before it, but only the functions behind it. Its result is theirs: if they succeed, it is
  -- SR_ERR_OK, or SR_ERR_DISCONNECT if the pid of VPP is negative.
  pub sr_plugin_init_cb_skips_failed :
      (proc proc' : Proc) (errno errno' attempts attempts' k k' n : ℕ) (pre : Entries) (f : ℕ)
      (post : Entries) (p : Plugin S) (s s' t u u' : S) (rc : SrError)
      → Represents p.main.init_function_registrations (pre ++ (f, false) ∷ post)
      → length (pre ++ (f, false) ∷ post) < n
      → Connects hw k (hw.init p.main.session) s
      → k < attempts
      → hw.populate (codes "boot") s ≡ (true, s')
      → (call_entries act ok pre s').0 ≡ ok
      → act f (call_entries act ok pre s').2 ≡ (rc, t)
      → is_ok rc ≡ false
      → Connects hw k' (hw.init t) u
      → k' < attempts'
      → hw.populate (codes "boot") u ≡ (true, u')
      → (p' : Plugin S) × (p'' : Plugin S) × (sr_plugin_init_cb hw
            (session_only act)
            proc
            errno
            attempts
            n
            p
          ≡ value (returned (rc, p')))
        × (sr_plugin_init_cb hw (session_only act) proc' errno' attempts' n p'
            ≡ value (
                returned (
                  (if is_ok (call_entries act ok post u').0
                      then if is_negative (get_vpp_pid proc' errno') then disconnect else ok
                      else (call_entries act ok post u').0),
                  p'',
                )))
        × (p''.main.session ≡ (call_entries act ok post u').2)
  unfolding call_entries
  sr_plugin_init_cb_skips_failed proc proc' errno errno' attempts attempts' k k' n pre f post p s s'
        t u u' rc h long connects enough populated fine fails bad connects' enough' populated' =
      let l : Entries = pre ++ (f, false) ∷ post in
      let marked : Entries = (call_entries act ok pre s').1 in
      let first = call_entries-failing act pre f post s' fine (rw fails bad) in
      let walked : call_entries act ok l s' ≡ (rc, marked ++ (f, true) ∷ post, t) =
        rw first (rw fails) in
      let (p', e, same, pid, r) =
        sr_plugin_init_cb_runs hw act proc errno attempts k n l p s s' connects enough populated h
          long in
      let l' : Entries = marked ++ (f, true) ∷ post in
      let reached : p'.main.session ≡ t = same ∙ ap (λ x. x.2) walked in
      let r' : Represents p'.main.init_function_registrations l' =
        subst (Represents p'.main.init_function_registrations) (ap (λ x. x.1) walked) r in
      let short : length l' < n =
        omega (arith, length-call_entries act ok l s', ap (λ x. length x.1) walked) in
      let (p'', e', same', pid', r'') =
        sr_plugin_init_cb_runs hw act proc' errno' attempts' k' n l' p' u u' (rw reached connects')
          enough' populated' r' short in
      let again : call_entries act ok l' u'
          ≡ (let q = call_entries act ok post u' in (q.0, marked ++ (f, true) ∷ q.1, q.2)) =
        call_entries-marked act marked ((f, true) ∷ post) u'
          (call_entries-AllCalled act ok pre s' fine) in
      (
        p',
        p'',
        rw (ap (λ x. x.0) walked, bad) at e,
        rw (ap (λ x. x.0) again) at e',
        same' ∙ ap (λ x. x.2) again,
      )
