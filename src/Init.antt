-- ===== src/Init.antt =====
-- src/plugins/sc_init.h and sc_init.c: the linked lists of init and exit functions. Each registered
-- function has one static list element, so a function's number is also its element's address.
pub mod Lists
pub mod Register
pub mod Calls
pub mod Again
pub mod Dependencies
pub mod Exits
pub mod Counts
use sweetcomb.Prelude.{
  ℕ, zero, suc, Bool, true, false, Option, none, some, ◌==◌, ◌&&◌, not, if◌then◌else◌,
}
use sweetcomb.Prelude.Outcome.{Outcome, value, fault, null_deref, out_of_fuel}
use sweetcomb.Sysrepo.{SrError, ok, is_ok}

-- `_sc_init_function_list_elt_t` and `_sc_exit_function_list_elt_t`
pub record Elt : Type 0 where
  pub next : Option ℕ
  pub func : ℕ
  pub is_called : Bool

-- One list head of `sc_plugin_main_t`, with the memory of the static elements.
pub record Registrations : Type 0 where
  pub head : Option ℕ
  pub elts : ℕ → Elt

abbrev pub update : (ℕ → Elt) → ℕ → Elt → ℕ → Elt
update m a e b = if a == b then e else m b

-- `__sc_add_##tag##_function_##f`, run by the loader.
unfoldable pub add_function : ℕ → Registrations → Registrations
add_function f r = record {
  head = some f;
  elts = update r.elts f (record { next = r.head; func = f; is_called = false });
}

-- The `while (p->next != NULL)` of `__sc_rm_##tag##_function_##f`, from the element at `p`.
unfoldable pub rm_after : ℕ → ℕ → ℕ → Registrations → Outcome Registrations
rm_after zero f p r = fault out_of_fuel
rm_after (suc n) f p r = elim (r.elts p).next [
  | none ↦ value r
  | some q ↦
      let rest = rm_after n f q r in
      if (r.elts q).func == f
      then value
          (record r { elts = update r.elts p (record (r.elts p) { next = (r.elts q).next }) })
      else rest
]

-- `__sc_rm_##tag##_function_##f`; the head is read before it is compared with NULL.
unfoldable pub rm_function : ℕ → ℕ → Registrations → Outcome Registrations
rm_function n f r = elim r.head [
  | none ↦ fault null_deref
  | some h ↦
      if (r.elts h).func == f then value (record r { head = (r.elts h).next }) else rm_after n f h r
]

-- `sc_plugin_main_t`; `session` stands for the session, the subscription and all that they own.
pub record PluginMain (S : Type 0) : Type 0 where
  pub session : S
  pub init_function_registrations : Registrations
  pub exit_function_registrations : Registrations

abbrev pub mark_called : ℕ → Registrations → Registrations
mark_called a r = record r { elts = update r.elts a (record (r.elts a) { is_called = true }) }

module _ {S : Type 0} where
  abbrev pub mark_init : ℕ → PluginMain S → PluginMain S
  mark_init a pm = record pm {
    init_function_registrations = mark_called a pm.init_function_registrations;
  }

  abbrev pub mark_exit : ℕ → PluginMain S → PluginMain S
  mark_exit a pm = record pm {
    exit_function_registrations = mark_called a pm.exit_function_registrations;
  }

  abbrev pub init_elt : PluginMain S → ℕ → Elt
  init_elt pm = pm.init_function_registrations.elts

  abbrev pub exit_elt : PluginMain S → ℕ → Elt
  exit_elt pm = pm.exit_function_registrations.elts

  module _ (run : ℕ → PluginMain S → SrError × PluginMain S) where
    -- The loop of `sc_call_all_init_function` from the pointer `p`, with `ret` so far. A called
    -- function may change the lists: `p->next` is read after the call.
    unfoldable pub init_loop :
        ℕ → Option ℕ → SrError → PluginMain S → Outcome (SrError × PluginMain S)
    init_loop zero p ret pm = fault out_of_fuel
    init_loop (suc n) none ret pm = value (ret, pm)
    init_loop (suc n) (some a) ret pm =
        let skip = init_loop n (init_elt pm a).next ret pm in
        let (ret', pm') = run (init_elt pm a).func (mark_init a pm) in
        let go = init_loop n (init_elt pm' a).next ret' pm' in
        if (init_elt pm a).is_called then skip else if is_ok ret' then go else value (ret', pm')

    unfoldable pub sc_call_all_init_function : ℕ → PluginMain S → Outcome (SrError × PluginMain S)
    sc_call_all_init_function n pm = init_loop n pm.init_function_registrations.head ok pm

    -- `sc_call_init_function(f, pm)`: the first element of `f` that has not been called.
    unfoldable pub call_init_loop :
        ℕ → ℕ → Option ℕ → PluginMain S → Outcome (SrError × PluginMain S)
    call_init_loop zero f p pm = fault out_of_fuel
    call_init_loop (suc n) f none pm = value (ok, pm)
    call_init_loop (suc n) f (some a) pm =
        let skip = call_init_loop n f (init_elt pm a).next pm in
        if (init_elt pm a).func == f && not (init_elt pm a).is_called
        then value (run (init_elt pm a).func (mark_init a pm))
        else skip

    unfoldable pub sc_call_init_function : ℕ → ℕ → PluginMain S → Outcome (SrError × PluginMain S)
    sc_call_init_function n f pm = call_init_loop n f pm.init_function_registrations.head pm

  module _ (run : ℕ → PluginMain S → PluginMain S) where
    -- The loop of `sc_call_all_exit_function`.
    unfoldable pub exit_loop : ℕ → Option ℕ → PluginMain S → Outcome (PluginMain S)
    exit_loop zero p pm = fault out_of_fuel
    exit_loop (suc n) none pm = value pm
    exit_loop (suc n) (some a) pm =
        let skip = exit_loop n (exit_elt pm a).next pm in
        let pm' = run (exit_elt pm a).func (mark_exit a pm) in
        let go = exit_loop n (exit_elt pm' a).next pm' in
        if (exit_elt pm a).is_called then skip else go

    unfoldable pub sc_call_all_exit_function : ℕ → PluginMain S → Outcome (PluginMain S)
    sc_call_all_exit_function n pm = exit_loop n pm.exit_function_registrations.head pm

    -- `sc_call_exit_function(f, pm)`
    unfoldable pub call_exit_loop : ℕ → ℕ → Option ℕ → PluginMain S → Outcome (PluginMain S)
    call_exit_loop zero f p pm = fault out_of_fuel
    call_exit_loop (suc n) f none pm = value pm
    call_exit_loop (suc n) f (some a) pm =
        let skip = call_exit_loop n f (exit_elt pm a).next pm in
        if (exit_elt pm a).func == f && not (exit_elt pm a).is_called
        then value (run (exit_elt pm a).func (mark_exit a pm))
        else skip

    unfoldable pub sc_call_exit_function : ℕ → ℕ → PluginMain S → Outcome (PluginMain S)
    sc_call_exit_function n f pm = call_exit_loop n f pm.exit_function_registrations.head pm
