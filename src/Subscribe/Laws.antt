-- ===== src/Subscribe/Laws.antt =====
-- The order of the subscriptions that the init functions make.
use sweetcomb.Prelude.{
  ℕ, ◌<◌, ◌≡◌, refl, true, false, codes, List, [], ◌∷◌, ◌++◌, length, ◌==◌, if◌then◌else◌,
  Bool-cases, inl, inr, arith,
}
use sweetcomb.Prelude.Outcome.{value}
use sweetcomb.Sysrepo.{SrError, ok, is_ok, is_ok_eq}
use sweetcomb.Init.{PluginMain, sc_call_all_init_function}
use sweetcomb.Init.Lists.{Entries, Represents}
use sweetcomb.Init.Calls.{session_only, call_entries, sc_call_all_init_function-Represents}
use sweetcomb.Subscribe.{
  Subscription, subtree_change, dp_get_items, interface_create, interface_address, interface_state,
  interface_statistics, nat_instance, nat_mapping_table, nat_capabilities, oc_config, oc_state,
  ietf_interface_init, ietf_nat_init, openconfig_interface_init, init_functions,
}

-- What each init function subscribes.
abbrev pub ietf_interface_subscriptions : List Subscription
ietf_interface_subscriptions =
    subtree_change (codes "/ietf-interfaces:interfaces/interface") interface_create 100
    ∷ subtree_change (codes "/ietf-interfaces:interfaces/interface/ietf-ip:ipv4/address")
        interface_address 99
    ∷ subtree_change (codes "/ietf-interfaces:interfaces/interface/ietf-ip:ipv6/address")
        interface_address 98
    ∷ dp_get_items (codes "/ietf-interfaces:interfaces-state") interface_state
    ∷ dp_get_items (codes "/ietf-interfaces:interfaces-state/interface/statistics")
        interface_statistics
    ∷ []

abbrev pub ietf_nat_subscriptions : List Subscription
ietf_nat_subscriptions =
    subtree_change (codes "/ietf-nat:nat/instances/instance") nat_instance 1
    ∷ subtree_change (codes "/ietf-nat:nat/instances/instance/mapping-table/mapping-entry")
        nat_mapping_table 10
    ∷ dp_get_items (codes "/ietf-nat:nat/instances/instance/capabilities") nat_capabilities
    ∷ []

abbrev pub openconfig_interface_subscriptions : List Subscription
openconfig_interface_subscriptions =
    subtree_change (codes "/openconfig-interfaces:interfaces/interface/config") oc_config 98
    ∷ dp_get_items (codes "/openconfig-interfaces:interfaces/interface/state") oc_state
    ∷ []

abbrev pub subscriptions_of : ℕ → List Subscription
subscriptions_of f =
    if f == 0
    then ietf_interface_subscriptions
    else if f == 1
    then ietf_nat_subscriptions
    else if f == 2
    then openconfig_interface_subscriptions
    else []

-- The subscriptions of all entries, in their order.
abbrev pub all_subscriptions : Entries → List Subscription
all_subscriptions [] = []
all_subscriptions ((f, c) ∷ l) = subscriptions_of f ++ all_subscriptions l

-- No entry has been called.
abbrev pub Fresh : Entries → Type 0
Fresh [] = Unit
Fresh ((f, c) ∷ l) = (c ≡ false) × Fresh l

module _ {S : Type 0} (subscribe : Subscription → S → SrError × S) where
  -- The subscriptions are made one after the other, up to the first that fails.
  unfoldable pub subscribe_all : List Subscription → S → SrError × S
  subscribe_all [] s = (ok, s)
  subscribe_all (c ∷ cs) s =
      let rest = subscribe_all cs (subscribe c s).1 in
      if is_ok (subscribe c s).0 then rest else subscribe c s

  subscribe_all-append :
      (xs ys : List Subscription) (s : S)
      → subscribe_all (xs ++ ys) s ≡ (
          if is_ok (subscribe_all xs s).0
          then subscribe_all ys (subscribe_all xs s).1
          else subscribe_all xs s)
  unfolding subscribe_all
  subscribe_all-append [] ys s = refl
  subscribe_all-append (c ∷ xs) ys s = ground (arith, subscribe_all-append xs ys (subscribe c s).1)

  ietf_interface_init-subscribe_all :
      (s : S) → ietf_interface_init subscribe s ≡ subscribe_all ietf_interface_subscriptions s
  unfolding ietf_interface_init subscribe_all
  ietf_interface_init-subscribe_all s = refl

  ietf_nat_init-subscribe_all :
      (s : S) → ietf_nat_init subscribe s ≡ subscribe_all ietf_nat_subscriptions s
  unfolding ietf_nat_init subscribe_all
  ietf_nat_init-subscribe_all s = refl

  openconfig_interface_init-subscribe_all :
      (s : S)
      → openconfig_interface_init subscribe s ≡ subscribe_all openconfig_interface_subscriptions s
  unfolding openconfig_interface_init subscribe_all
  openconfig_interface_init-subscribe_all s = refl

  init_functions-subscribe_all :
      (f : ℕ) (s : S) → init_functions subscribe f s ≡ subscribe_all (subscriptions_of f) s
  unfolding init_functions subscribe_all
  init_functions-subscribe_all f s = elim (Bool-cases (f == 0)) [
    | inl zeroth ↦ rw (init_functions, zeroth) (ietf_interface_init-subscribe_all s)
    | inr n₀ ↦ elim (Bool-cases (f == 1)) [
      | inl first ↦ rw (init_functions, n₀, first) (ietf_nat_init-subscribe_all s)
      | inr n₁ ↦ elim (Bool-cases (f == 2)) [
        | inl second ↦
            rw (init_functions, n₀, n₁, second) (openconfig_interface_init-subscribe_all s)
        | inr n₂ ↦ rw (init_functions, n₀, n₁, n₂)
      ]
    ]
  ]

  pub call_entries-subscribe_all :
      (l : Entries) (s : S)
      → Fresh l
      → (let r = call_entries (init_functions subscribe) ok l s in
          (r.0, r.2) ≡ subscribe_all (all_subscriptions l) s)
  unfolding call_entries subscribe_all
  call_entries-subscribe_all [] s h = refl
  call_entries-subscribe_all ((f, true) ∷ l) s h = cc (h.0)
  call_entries-subscribe_all ((f, false) ∷ l) s h =
      let act = init_functions subscribe in
      let same : act f s ≡ subscribe_all (subscriptions_of f) s =
        init_functions-subscribe_all f s in
      let apart = subscribe_all-append (subscriptions_of f) (all_subscriptions l) s in
      elim (Bool-cases (is_ok (act f s).0)) [
        | inl good ↦
            let fine : (act f s).0 ≡ ok = is_ok_eq (act f s).0 good in
            let later = call_entries-subscribe_all l (act f s).1 h.1 in
            rw (good, fine, later, apart, ← same, good)
        | inr bad ↦ rw (bad, apart, ← same, bad)
      ]

  -- Running the registered init functions, each once in the list and none of them called before,
  -- ends after a step for each entry and one more. It makes the subscriptions of all of them in
  -- the order of the list, up to the first that fails: the result and the session are those of
  -- the subscriptions.
  pub sc_call_all_init_function-subscribe_all :
      (n : ℕ) (l : Entries) (pm : PluginMain S)
      → Represents pm.init_function_registrations l
      → Fresh l
      → length l < n
      → (pm' : PluginMain S) × (sc_call_all_init_function
            (session_only (init_functions subscribe))
            n
            pm
          ≡ value ((subscribe_all (all_subscriptions l) pm.session).0, pm'))
        × (pm'.session ≡ (subscribe_all (all_subscriptions l) pm.session).1)
  sc_call_all_init_function-subscribe_all n l pm h fresh enough =
      let (pm', e, s, r, x) =
        sc_call_all_init_function-Represents (init_functions subscribe) n l pm h enough in
      let same = call_entries-subscribe_all l pm.session fresh in (pm', cc, cc)
