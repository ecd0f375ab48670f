-- ===== src/Snmp.antt =====
-- The types of gosnmp that the program names, as far as it names them. A constructor of `Asn1Ber` is
-- a constant of gosnmp; `unnamed` is any other byte of that type. `end_of_contents` is the byte 0, and
-- `integer` the byte 2.
use go_snmpsim.Prelude.{ℕ, Bytes}
use native.Mathlib.Decide.{ℕ_discrete}

pub data Asn1Ber : Type 0 where
  end_of_contents integer bit_string octet_string null object_identifier ip_address counter32 :
      Asn1Ber
  gauge32 timeticks opaque nsap_address counter64 uinteger32 no_such_object end_of_mib_view :
      Asn1Ber
  unnamed : ℕ → Asn1Ber

pub Asn1Ber-discrete : Discrete Asn1Ber
Asn1Ber-discrete = hlevel ℕ_discrete

-- The values that an `interface{}` holds in this program. A Go integer is its bit pattern.
pub data Value : Type 0 where
  nil : Value
  string : Bytes → Value
  int int32 int64 uint uint32 uint64 : ℕ → Value

pub Value-discrete : Discrete Value
Value-discrete = hlevel ℕ_discrete

-- internal/store/database.go: OIDValue
pub record OidValue : Type 0 where
  pub type : Asn1Ber
  pub value : Value

-- gosnmp.SnmpPDU
pub record Pdu : Type 0 where
  pub name : Bytes
  pub type : Asn1Ber
  pub value : Value

-- internal/store/parser.go: OIDEntry
pub record OidEntry : Type 0 where
  pub oid : Bytes
  pub type : Asn1Ber
  pub value : Value
