-- ===== src/Positions.antt =====
-- The searches of the store for the place of an OID: `searchOIDPosition` of
-- internal/store/index_manager.go, `searchRowIDs` of internal/store/table.go and the same search in
-- `GetNext` of internal/store/database.go.
pub mod Ascending
pub mod Place
use go_snmpsim.Prelude.{ℕ, List, [], Bool, not, Bytes, length, get_or}
use go_snmpsim.Sort.{search}
use go_snmpsim.Oid.{is_oid_less}

-- `sort.Search(len(sortedOIDs), func(i) { return !isOIDLess(sortedOIDs[i], target) })`
unfoldable pub search_oid_position : List Bytes → Bytes → ℕ
search_oid_position sorted_oids target =
    search (length sorted_oids) (λ i. not (is_oid_less (get_or sorted_oids i []) target))
