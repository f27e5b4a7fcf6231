-- ===== src/State/Dump.antt =====
-- src/plugins/vpp-oper/interface.cpp: the request by which the state callbacks read VPP's
-- interfaces. VPP's answers are a parameter.
use sweetcomb.Prelude.{ℕ, Text, codes, List, [], is_empty, length, ltb, if◌then◌else◌}
use sweetcomb.Prelude.Outcome.{Outcome, value, fault, stack_overrun, ◌>>=◌}

-- `uint8_t l2_address[6]`
pub record Mac : Type 0 where
  pub m0 : ℕ
  pub m1 : ℕ
  pub m2 : ℕ
  pub m3 : ℕ
  pub m4 : ℕ
  pub m5 : ℕ

-- `vapi_payload_sw_interface_details`, as far as the callbacks read it.
pub record Details : Type 0 where
  pub interface_name : Text
  pub flags : ℕ
  pub link_duplex : ℕ
  pub l2_address : Mac
  pub sw_if_index : ℕ
  pub link_speed : ℕ
  pub link_mtu : ℕ

-- The payload of the request.
pub record Request : Type 0 where
  pub name_filter_valid : ℕ
  pub name_filter : Text

-- VPP behind the connection: the size of the request's `name_filter.buf`, and the interfaces with
-- which it answers a request.
pub record Vpp : Type 0 where
  pub name_filter_size : ℕ
  pub interfaces : Request → List Details

-- `interface_dump`; the default constructor leaves the name empty.
pub record InterfaceDump : Type 0 where
  pub m_name : Text

abbrev pub dump_all : InterfaceDump
dump_all = record { m_name = [] }

abbrev pub dump_one : Text → InterfaceDump
dump_one interface_name = record { m_name = interface_name }

-- The request that `interface_dump::issue` fills in. `strcpy` writes the name and its final 0.
unfoldable pub fill_request : Vpp → InterfaceDump → Outcome Request
fill_request vpp d =
    if is_empty d.m_name
    then value (record { name_filter_valid = 0; name_filter = [] })
    else if ltb (length d.m_name) vpp.name_filter_size
    then value (record { name_filter_valid = 1; name_filter = d.m_name })
    else fault stack_overrun

-- `HW::enqueue(dump); HW::write();` issues the dump, which then holds the answers.
unfoldable pub issue : Vpp → InterfaceDump → Outcome (List Details)
issue vpp d = do request ← fill_request vpp d; value (vpp.interfaces request)

-- `interface_dump::to_string`
unfoldable pub dump_to_string : InterfaceDump → Text
dump_to_string d = codes "itf-dump"
