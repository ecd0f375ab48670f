-- ===== src/SnmprecFormat.antt =====
-- internal/snmprecfmt/snmprecfmt.go: record files as they are written and read. An error is `none`. A
-- []byte counts as the string of its bytes, which the source turns it into. Sorting is quicksort's.
pub mod Compare
pub mod Fields
pub mod Replay
pub mod Tests
use mathlib.Core.List.{foldl, map}
use go_snmpsim.Prelude.{
  ℕ, ◌+◌, ◌-◌, ◌%◌, ◌^◌, Bool, true, false, not, ◌&&◌, Option, none, some, List, [], ◌∷◌, ◌++◌,
  Bytes, codes, is_empty, bytes_eq, has_prefix, trim_space, to_lower, ltb, ◌==◌, if◌then◌else◌,
}
use go_snmpsim.Oid.{int_less}
use go_snmpsim.Oid.Render.{decimal}
use go_snmpsim.Sort.{quick_sort_all}
use go_snmpsim.Snmp.{
  Asn1Ber, end_of_contents, integer, bit_string, octet_string, null, object_identifier, ip_address,
  counter32, gauge32, timeticks, opaque, nsap_address, counter64, uinteger32, no_such_object,
  end_of_mib_view, unnamed, Value, nil, string, int, int32, int64, uint, uint32, uint64,
}
use go_snmpsim.Strconv.{atoi, print_int, split_n}
use go_snmpsim.Strconv.Scan.{split}
use go_snmpsim.Strconv.Substrings.{trim_prefix}

pub record Entry : Type 0 where
  pub oid : Bytes
  pub type : Bytes
  pub value : Bytes

type_number : ℕ → Bytes
unfolding decimal
type_number n = codes "type-" ++ decimal n []

unfoldable pub type_name : Asn1Ber → Bytes
unfolding type_number
type_name integer = codes "integer"
type_name octet_string = codes "octetstring"
type_name object_identifier = codes "objectidentifier"
type_name ip_address = codes "ipaddress"
type_name counter32 = codes "counter32"
type_name gauge32 = codes "gauge32"
type_name timeticks = codes "timeticks"
type_name opaque = codes "opaque"
type_name nsap_address = codes "nsapaddress"
type_name counter64 = codes "counter64"
type_name uinteger32 = codes "gauge32"
type_name bit_string = codes "bits"
type_name null = codes "null"
type_name end_of_contents = type_number 0
type_name no_such_object = type_number 0x80
type_name end_of_mib_view = type_number 0x82
type_name (unnamed n) = type_number n

-- The int64 of an int32.
abbrev sign_extended : ℕ → ℕ
sign_extended n = if ltb n (2 ^ 31) then n else (n + 2 ^ 64 - 2 ^ 32) % 2 ^ 64

-- The bit pattern of the int64.
unfoldable pub to_int64 : Value → Option ℕ
to_int64 (int n) = some n
to_int64 (int32 n) = some (sign_extended n)
to_int64 (int64 n) = some n
to_int64 (uint n) = some n
to_int64 (uint32 n) = some n
to_int64 (uint64 n) = some n
to_int64 v = none

-- `none` for a negative number.
abbrev not_negative : ℕ → Option ℕ
not_negative n = if int_less n 0 then none else some n

unfoldable pub to_uint64 : Value → Option ℕ
to_uint64 (int n) = not_negative n
to_uint64 (int32 n) = not_negative (sign_extended n)
to_uint64 (int64 n) = not_negative n
to_uint64 (uint n) = some n
to_uint64 (uint32 n) = some n
to_uint64 (uint64 n) = some n
to_uint64 v = none

-- `fmt.Sprint` of what is no string prints an integer in decimal, and nil as `<nil>`.
unfoldable pub stringify : Value → Bytes
unfolding print_int decimal
stringify (string s) = s
stringify nil = codes "<nil>"
stringify (int n) = print_int n
stringify (int32 n) = print_int (sign_extended n)
stringify (int64 n) = print_int n
stringify (uint n) = decimal n []
stringify (uint32 n) = decimal n []
stringify (uint64 n) = decimal n []

abbrev printed : (ℕ → Bytes) → Option ℕ → Option Bytes
printed print none = none
printed print (some n) = some (print n)

unfoldable pub value_string : Asn1Ber → Value → Option Bytes
unfolding to_int64 to_uint64 stringify
value_string integer value = printed print_int (to_int64 value)
value_string counter32 value = printed (λ n. decimal n []) (to_uint64 value)
value_string gauge32 value = printed (λ n. decimal n []) (to_uint64 value)
value_string timeticks value = printed (λ n. decimal n []) (to_uint64 value)
value_string uinteger32 value = printed (λ n. decimal n []) (to_uint64 value)
value_string counter64 value = printed (λ n. decimal n []) (to_uint64 value)
value_string null value = some []
value_string ber value = some (stringify value)

abbrev with_text : Bytes → Asn1Ber → Option Bytes → Option Entry
with_text oid ber none = none
with_text oid ber (some value_text) =
    some (record { oid = trim_prefix oid (codes "."); type = type_name ber; value = value_text })

unfoldable pub entry_from_pdu : Bytes → Asn1Ber → Value → Option Entry
unfolding type_name value_string trim_prefix
entry_from_pdu oid ber value = with_text oid ber (value_string ber value)

-- `s < t` of strings.
unfoldable pub bytes_less : Bytes → Bytes → Bool
bytes_less s [] = false
bytes_less [] (d ∷ t) = true
bytes_less (c ∷ s) (d ∷ t) = if c == d then bytes_less s t else ltb c d

-- The results -1, 0 and 1.
pub data Sign : Type 0 where
  below same above : Sign

abbrev pub sign_of : Bool → Bool → Sign
sign_of true greater = below
sign_of false true = above
sign_of false false = same

pub compare_numbers : Option ℕ → Option ℕ → Bytes → Bytes → Sign
unfolding bytes_less
compare_numbers (some ai) (some bi) a b = sign_of (int_less ai bi) (int_less bi ai)
compare_numbers none bi a b = sign_of (bytes_less a b) (bytes_less b a)
compare_numbers (some ai) none a b = sign_of (bytes_less a b) (bytes_less b a)

-- One part of an OID against another: as numbers, if both are, and else as texts.
unfoldable pub compare_part : Bytes → Bytes → Sign
unfolding atoi compare_numbers
compare_part a b = compare_numbers (atoi a) (atoi b) a b

abbrev pub or_else : Sign → Sign → Sign
or_else below rest = below
or_else same rest = rest
or_else above rest = above

-- The loop over the parts.
unfoldable pub compare_parts : List Bytes → List Bytes → Sign
unfolding compare_part
compare_parts [] [] = same
compare_parts [] (b ∷ bs) = below
compare_parts (a ∷ aa) [] = above
compare_parts (a ∷ aa) (b ∷ bs) = or_else (compare_part a b) (compare_parts aa bs)

unfoldable pub compare_oid : Bytes → Bytes → Sign
unfolding trim_prefix split compare_parts
compare_oid a b =
    if bytes_eq a b
    then same
    else compare_parts (split b'.' (trim_prefix a (codes ".")))
        (split b'.' (trim_prefix b (codes ".")))

abbrev pub is_below : Sign → Bool
is_below below = true
is_below same = false
is_below above = false

abbrev pub no_entry : Entry
no_entry = record { oid = []; type = []; value = [] }

abbrev pub entry_less : Entry → Entry → Bool
entry_less a b = is_below (compare_oid a.oid b.oid)

unfoldable pub sort_entries : List Entry → List Entry
unfolding compare_oid
sort_entries entries = quick_sort_all no_entry entry_less entries

-- `fmt.Fprintf(w, "%s|%s|%s\n", entry.OID, entry.Type, entry.Value)`
unfoldable pub line_of : Entry → Bytes
line_of entry = entry.oid ++ b'|' ∷ (entry.type ++ b'|' ∷ (entry.value ++ 10 ∷ []))

lines_of : List Entry → Bytes
unfolding line_of
lines_of [] = []
lines_of (entry ∷ entries) = line_of entry ++ lines_of entries

-- The bytes of the file that `WriteFile` makes.
unfoldable pub write_file : List Entry → Bytes
unfolding sort_entries lines_of
write_file entries = lines_of (sort_entries entries)

entry_of_parts : List Bytes → Option Entry
unfolding trim_space to_lower trim_prefix
entry_of_parts (p0 ∷ p1 ∷ p2 ∷ []) = some (record {
  oid = trim_prefix (trim_space p0) (codes ".");
  type = to_lower (trim_space p1);
  value = trim_space p2;
})
entry_of_parts parts = none

abbrev cons_entry : Option Entry → Option (List Entry) → Option (List Entry)
cons_entry none rest = none
cons_entry (some entry) none = none
cons_entry (some entry) (some entries) = some (entry ∷ entries)

-- The loop of `ReadFile`: the first line with fewer than three fields ends it.
unfoldable pub read_lines : List Bytes → Option (List Entry)
unfolding entry_of_parts trim_space split_n
read_lines [] = some []
read_lines (l ∷ lines) =
    let line = trim_space l in
    let rest = read_lines lines in
    if is_empty line
    then rest
    else if has_prefix line (codes "#")
    then rest
    else cons_entry (entry_of_parts (split_n 3 b'|' line)) rest

abbrev sorted_entries : Option (List Entry) → Option (List Entry)
sorted_entries none = none
sorted_entries (some entries) = some (sort_entries entries)

-- `ReadFile`, of the bytes that were read.
unfoldable pub read_file : Option Bytes → Option (List Entry)
unfolding read_lines sort_entries split
read_file none = none
read_file (some text) = sorted_entries (read_lines (split 10 text))
