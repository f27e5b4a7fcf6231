-- ===== src/Interface/Address/Binds.antt =====
-- What VOM holds after `ipv46_config_add_remove` of src/plugins/ietf/ietf_interface.cpp has added
-- addresses of an interface that VOM holds.
use sweetcomb.Prelude.{ℕ, ◌≡◌, true, Text, some, none, List, [], ◌∷◌, All, Option-cases, inl, inr}
use sweetcomb.Sysrepo.{SrError}
use sweetcomb.Vom.{Vom, Obj, interface_obj, l3_obj, KeepsObjects, FindsInterfaces}
use sweetcomb.Interface.Address.{l3_key, ipv46_config_add_remove}
use sweetcomb.Interface.Address.Laws.{AddressNodes, config_all}

module _ {W I P A : Type 0} (V : Vom W I P A) where
  -- The address can be read with its own length.
  abbrev pub IsReadable : AddressNodes → Type 0
  IsReadable a = (q : P) × (V.make_prefix a.ip.string_val a.length.uint8_val ≡ some q)

module _ {W I P A : Type 0} (V : Vom W I P A) (Holds : W → Text → Obj I P A → Type 0) where
  -- The interface is held.
  abbrev pub HoldsInterface : I → W → Type 0
  HoldsInterface i w = Holds w (V.key i) (interface_obj i)

  -- The prefix is held, bound to the interface.
  abbrev pub HoldsPrefix : I → W → P → Type 0
  HoldsPrefix i w q = Holds w (l3_key V i q) (l3_obj i q)

  -- The address is held with its own length, bound to the interface.
  abbrev pub IsBound : I → W → AddressNodes → Type 0
  IsBound i w a =
      (q : P) × (V.make_prefix a.ip.string_val a.length.uint8_val ≡ some q) × HoldsPrefix i w q

  module _ (K : KeepsObjects V Holds) (F : FindsInterfaces V Holds)
      (accepts : (k : Text) (o : Obj I P A) (w : W) → (V.write k o w).0 ≡ true) where
    module _ (i : I) where
      -- What adding an address keeps and makes.
      record Adds (n addr : Text) (p : ℕ) (w : W) : Type 0 where
        pub keeps_interface : HoldsInterface i (ipv46_config_add_remove V n addr p true w).1
        pub keeps_prefix :
            (q : P)
            → HoldsPrefix i w q
            → HoldsPrefix i (ipv46_config_add_remove V n addr p true w).1 q
        pub binds :
            (q : P)
            → V.make_prefix addr p ≡ some q
            → HoldsPrefix i (ipv46_config_add_remove V n addr p true w).1 q

      added_readable :
          (addr : Text) (p : ℕ) (q : P) (w : W)
          → HoldsInterface i w
          → V.make_prefix addr p ≡ some q
          → (ipv46_config_add_remove V (V.name i) addr p true w).1
            ≡ (V.write (l3_key V i q) (l3_obj i q) w).1
      unfolding ipv46_config_add_remove
      added_readable addr p q w h e = rw (ipv46_config_add_remove, F.finds i w h, e)

      added_unreadable :
          (addr : Text) (p : ℕ) (w : W)
          → HoldsInterface i w
          → V.make_prefix addr p ≡ none
          → (ipv46_config_add_remove V (V.name i) addr p true w).1 ≡ w
      unfolding ipv46_config_add_remove
      added_unreadable addr p w h e = rw (ipv46_config_add_remove, F.finds i w h, e)

      ipv46_config_add_remove-Adds :
          (addr : Text) (p : ℕ) (w : W) → HoldsInterface i w → Adds (V.name i) addr p w
      ipv46_config_add_remove-Adds addr p w h = elim (Option-cases (V.make_prefix addr p)) [
        | inl unread ↦
            let same = added_unreadable addr p w h unread in
            record {
              keeps_interface = rw same h;
              keeps_prefix = λ q held. rw same held;
              binds = λ q e. absurd cc;
            }
        | inr (q, e) ↦
            let now = added_readable addr p q w h e in
            record {
              keeps_interface = rw now (
                  K.kept (l3_key V i q) (V.key i) (l3_obj i q) (interface_obj i) w
                    (accepts (l3_key V i q) (l3_obj i q) w) h);
              keeps_prefix = λ q' held. rw now (
                  K.kept (l3_key V i q) (l3_key V i q') (l3_obj i q) (l3_obj i q') w
                    (accepts (l3_key V i q) (l3_obj i q) w) held);
              binds = λ q' e'. rw (added_readable addr p q' w h e') (
                  K.written (l3_key V i q') (l3_obj i q') w
                    (accepts (l3_key V i q') (l3_obj i q') w));
            }
      ]

      -- What adding all addresses keeps and makes.
      pub record AddsAll (stale : ℕ) (rc : SrError) (nodes : List AddressNodes) (w : W)
          : Type 0 where
        pub keeps_interface : HoldsInterface i (config_all V (V.name i) true stale rc nodes w).1
        pub keeps_prefix :
            (q : P)
            → HoldsPrefix i w q
            → HoldsPrefix i (config_all V (V.name i) true stale rc nodes w).1 q
        pub binds : All (IsBound i (config_all V (V.name i) true stale rc nodes w).1) nodes

      pub nodes-AddsAll :
          (stale : ℕ) (rc : SrError) (nodes : List AddressNodes) (w : W)
          → HoldsInterface i w
          → All (IsReadable V) nodes
          → AddsAll stale rc nodes w
      unfolding config_all
      nodes-AddsAll stale rc [] w h r = record {
        keeps_interface = h;
        keeps_prefix = λ q held. held;
        binds = tt;
      }
      nodes-AddsAll stale rc (a ∷ rest) w h r =
          let early = ipv46_config_add_remove V (V.name i) a.ip.string_val stale true w in
          let p = a.length.uint8_val in
          let own = ipv46_config_add_remove V (V.name i) a.ip.string_val p true early.1 in
          let first = ipv46_config_add_remove-Adds a.ip.string_val stale w h in
          let second =
            ipv46_config_add_remove-Adds a.ip.string_val p early.1 first.keeps_interface in
          let others = nodes-AddsAll p own.0 rest own.1 second.keeps_interface r.1 in
          record {
            keeps_interface = others.keeps_interface;
            keeps_prefix =
                λ q held. others.keeps_prefix q (second.keeps_prefix q (first.keeps_prefix q held));
            binds = (
              (r.0.0, r.0.1, others.keeps_prefix r.0.0 (second.binds r.0.0 r.0.1)),
              others.binds,
            );
          }
