-- ===== src/Loader/MibNames.antt =====
-- internal/store/parser.go: the names of MIB objects.
use Prim.Native.String.{String}
use go_snmpsim.Prelude.{
  Bool, Option, none, some, List, [], ◌∷◌, ◌++◌, Bytes, codes, is_empty, bytes_eq, has_prefix,
  trim_space, if◌then◌else◌,
}
use mathlib.Core.List.{reverse}
use go_snmpsim.Strconv.{cut}
use go_snmpsim.Strconv.Substrings.{cut_at}

abbrev mib_mapping : List (String × String)
mib_mapping =
    ("sysDescr", "1.3.6.1.2.1.1.1.0")
    ∷ ("sysObjectID", "1.3.6.1.2.1.1.2.0")
    ∷ ("sysUpTime", "1.3.6.1.2.1.1.3.0")
    ∷ ("sysContact", "1.3.6.1.2.1.1.4.0")
    ∷ ("sysName", "1.3.6.1.2.1.1.5.0")
    ∷ ("sysLocation", "1.3.6.1.2.1.1.6.0")
    ∷ ("sysServices", "1.3.6.1.2.1.1.7.0")
    ∷ ("sysORLastChange", "1.3.6.1.2.1.1.8.0")
    ∷ ("ifNumber", "1.3.6.1.2.1.2.1.0")
    ∷ ("ifIndex", "1.3.6.1.2.1.2.2.1.1")
    ∷ ("ifDescr", "1.3.6.1.2.1.2.2.1.2")
    ∷ ("ifType", "1.3.6.1.2.1.2.2.1.3")
    ∷ ("ifMtu", "1.3.6.1.2.1.2.2.1.4")
    ∷ ("ifSpeed", "1.3.6.1.2.1.2.2.1.5")
    ∷ ("ifPhysAddress", "1.3.6.1.2.1.2.2.1.6")
    ∷ ("ifAdminStatus", "1.3.6.1.2.1.2.2.1.7")
    ∷ ("ifOperStatus", "1.3.6.1.2.1.2.2.1.8")
    ∷ ("ifLastChange", "1.3.6.1.2.1.2.2.1.9")
    ∷ ("ifInOctets", "1.3.6.1.2.1.2.2.1.10")
    ∷ ("ifInUcastPkts", "1.3.6.1.2.1.2.2.1.11")
    ∷ ("ifInNUcastPkts", "1.3.6.1.2.1.2.2.1.12")
    ∷ ("ifInDiscards", "1.3.6.1.2.1.2.2.1.13")
    ∷ ("ifInErrors", "1.3.6.1.2.1.2.2.1.20")
    ∷ ("ifOutOctets", "1.3.6.1.2.1.2.2.1.16")
    ∷ ("ifOutUcastPkts", "1.3.6.1.2.1.2.2.1.17")
    ∷ ("ifOutNUcastPkts", "1.3.6.1.2.1.2.2.1.18")
    ∷ ("ifOutDiscards", "1.3.6.1.2.1.2.2.1.19")
    ∷ ("ifOutErrors", "1.3.6.1.2.1.2.2.1.24")
    ∷ ("ifName", "1.3.6.1.2.1.31.1.1.1.1")
    ∷ ("ifHighSpeed", "1.3.6.1.2.1.31.1.1.1.15")
    ∷ ("ipForwarding", "1.3.6.1.2.1.4.1.0")
    ∷ ("ipDefaultTTL", "1.3.6.1.2.1.4.2.0")
    ∷ ("ipInReceives", "1.3.6.1.2.1.4.3.0")
    ∷ ("ipInHdrErrors", "1.3.6.1.2.1.4.4.0")
    ∷ ("ipInAddrErrors", "1.3.6.1.2.1.4.5.0")
    ∷ ("ipForwDatagrams", "1.3.6.1.2.1.4.6.0")
    ∷ ("ipInUnknownProtos", "1.3.6.1.2.1.4.7.0")
    ∷ ("ipInDiscards", "1.3.6.1.2.1.4.8.0")
    ∷ ("ipInDelivers", "1.3.6.1.2.1.4.9.0")
    ∷ ("ipOutRequests", "1.3.6.1.2.1.4.10.0")
    ∷ ("ipOutDiscards", "1.3.6.1.2.1.4.11.0")
    ∷ ("ipOutNoRoutes", "1.3.6.1.2.1.4.12.0")
    ∷ ("ipReasmTimeout", "1.3.6.1.2.1.4.13.0")
    ∷ ("ipReasmReqds", "1.3.6.1.2.1.4.14.0")
    ∷ ("ipReasmOKs", "1.3.6.1.2.1.4.15.0")
    ∷ ("ipReasmFails", "1.3.6.1.2.1.4.16.0")
    ∷ ("ipFragOKs", "1.3.6.1.2.1.4.17.0")
    ∷ ("ipFragFails", "1.3.6.1.2.1.4.18.0")
    ∷ ("ipFragCreates", "1.3.6.1.2.1.4.19.0")
    ∷ ("tcpRtoAlgorithm", "1.3.6.1.2.1.6.1.0")
    ∷ ("tcpRtoMin", "1.3.6.1.2.1.6.2.0")
    ∷ ("tcpRtoMax", "1.3.6.1.2.1.6.3.0")
    ∷ ("tcpMaxConn", "1.3.6.1.2.1.6.4.0")
    ∷ ("tcpActiveOpens", "1.3.6.1.2.1.6.5.0")
    ∷ ("tcpPassiveOpens", "1.3.6.1.2.1.6.6.0")
    ∷ ("tcpAttemptFails", "1.3.6.1.2.1.6.7.0")
    ∷ ("tcpEstabResets", "1.3.6.1.2.1.6.8.0")
    ∷ ("tcpCurrEstab", "1.3.6.1.2.1.6.9.0")
    ∷ ("tcpInSegs", "1.3.6.1.2.1.6.10.0")
    ∷ ("tcpOutSegs", "1.3.6.1.2.1.6.11.0")
    ∷ ("tcpRetransSegs", "1.3.6.1.2.1.6.12.0")
    ∷ ("udpInDatagrams", "1.3.6.1.2.1.7.1.0")
    ∷ ("udpNoPorts", "1.3.6.1.2.1.7.2.0")
    ∷ ("udpInErrors", "1.3.6.1.2.1.7.3.0")
    ∷ ("udpOutDatagrams", "1.3.6.1.2.1.7.4.0")
    ∷ ("snmpInTotalRqvdPdus", "1.3.6.1.2.1.11.1.0")
    ∷ ("snmpInTotalInvalidMsgs", "1.3.6.1.2.1.11.3.0")
    ∷ ("snmpInASNParseErrs", "1.3.6.1.2.1.11.6.0")
    ∷ ("snmpOutTotalReqPdus", "1.3.6.1.2.1.11.2.0")
    ∷ ("snmpOutTotalRespPdus", "1.3.6.1.2.1.11.4.0")
    ∷ ("snmpOutGenErrs", "1.3.6.1.2.1.11.5.0")
    ∷ []

find_name : Bytes → List (String × String) → Option Bytes
find_name name [] = none
find_name name ((n, oid) ∷ names) =
    let rest = find_name name names in if bytes_eq name (codes n) then some (codes oid) else rest

-- `strings.HasSuffix(s, p)`
abbrev has_suffix : Bytes → Bytes → Bool
has_suffix s p = has_prefix (reverse s) (reverse p)

-- The text `"." + parts[1]`, where there is a dot.
abbrev index_text : Option Bytes → Bytes
index_text none = []
index_text (some rest) = b'.' ∷ rest

-- The empty text is an unknown name. The name of the MIB plays no part.
unfoldable pub lookup_mib_oid : Bytes → Bytes
unfolding find_name cut
lookup_mib_oid object_name =
    let parts = cut b'.' object_name in
    elim (find_name parts.0 mib_mapping) [
      | none ↦ []
      | some base_oid ↦
          if has_suffix base_oid (codes ".0") then base_oid else base_oid ++ index_text parts.1
    ]

abbrev known : Bytes → Option Bytes
known oid = if is_empty oid then none else some oid

unfoldable pub extract_oid_from_named : Bytes → Option Bytes
unfolding lookup_mib_oid cut_at trim_space
extract_oid_from_named named = elim (cut_at (codes "::") named) [
  | none ↦ none
  | some (mib_name, object_part) ↦ known (lookup_mib_oid (trim_space object_part))
]
