-- ===== src/Subscribe.antt =====
-- The init functions of the models: `ietf_interface_init`, `ietf_nat_init` and
-- `openconfig_interface_init`, which subscribe the callbacks.
pub mod Laws
use sweetcomb.Prelude.{ℕ, Bool, true, false, Text, codes, ◌==◌, if◌then◌else◌}
use sweetcomb.Sysrepo.{SrError, ok, is_ok}

-- The callbacks of the plugin.
pub data Handler : Type 0 where
  interface_create interface_address interface_state interface_statistics : Handler
  nat_instance nat_mapping_table nat_capabilities : Handler
  oc_config oc_state : Handler

-- `sr_subtree_change_subscribe` with a priority, and `sr_dp_get_items_subscribe`.
pub data Subscription : Type 0 where
  subtree_change : Text → Handler → ℕ → Subscription
  dp_get_items : Text → Handler → Subscription

-- The session with its subscription context, of which sysrepo's calls are a parameter.
module _ {S : Type 0} (subscribe : Subscription → S → SrError × S) where
  -- `rc = …_subscribe(…); if (SR_ERR_OK != rc) goto error;`, and the rest of the function
  abbrev pub or_error : Subscription → (S → SrError × S) → S → SrError × S
  or_error c rest s =
      let (rc, s') = subscribe c s in let go = rest s' in if is_ok rc then go else (rc, s')

  unfoldable pub ietf_interface_init : S → SrError × S
  ietf_interface_init =
      or_error (subtree_change (codes "/ietf-interfaces:interfaces/interface") interface_create 100)
        (or_error
          (subtree_change (codes "/ietf-interfaces:interfaces/interface/ietf-ip:ipv4/address")
            interface_address 99)
          (or_error
            (subtree_change (codes "/ietf-interfaces:interfaces/interface/ietf-ip:ipv6/address")
              interface_address 98)
            (or_error (dp_get_items (codes "/ietf-interfaces:interfaces-state") interface_state) (
              or_error
                (dp_get_items (codes "/ietf-interfaces:interfaces-state/interface/statistics")
                  interface_statistics)
                (λ s. (ok, s))))))

  unfoldable pub ietf_nat_init : S → SrError × S
  ietf_nat_init =
      or_error (subtree_change (codes "/ietf-nat:nat/instances/instance") nat_instance 1) (
        or_error
          (subtree_change (codes "/ietf-nat:nat/instances/instance/mapping-table/mapping-entry")
            nat_mapping_table 10)
          (or_error
            (dp_get_items (codes "/ietf-nat:nat/instances/instance/capabilities") nat_capabilities)
            (λ s. (ok, s))))

  unfoldable pub openconfig_interface_init : S → SrError × S
  openconfig_interface_init =
      or_error
        (subtree_change (codes "/openconfig-interfaces:interfaces/interface/config") oc_config 98)
        (or_error
          (dp_get_items (codes "/openconfig-interfaces:interfaces/interface/state") oc_state)
          (λ s. (ok, s)))

  -- The functions that the loader registers, by number; each `…_exit` function does nothing.
  unfoldable pub init_functions : ℕ → S → SrError × S
  init_functions f s =
      if f == 0
      then ietf_interface_init s
      else if f == 1
      then ietf_nat_init s
      else if f == 2
      then openconfig_interface_init s
      else (ok, s)
