-- ===== src/SnmprecFormat/Replay.antt =====
-- Recorded values as the simulator loads them: `EntryFromPDU` and `WriteFile` of
-- internal/snmprecfmt/snmprecfmt.go against `CollectTemplates` of internal/store/template.go.
use mathlib.Core.List.{append_assoc, append-nil}
use go_snmpsim.Prelude.{
  ℕ, ◌-◌, ◌^◌, ◌<◌, ◌≡◌, refl, sym, ap, ◌∙◌, ◌⊎◌, inl, inr, false, some, [], ◌∷◌, ◌++◌, Bytes,
  is_empty, All, arith, leb, ltb, if◌then◌else◌, ◌%◌,
}
use go_snmpsim.Oid.Components.{IsOidByte}
use go_snmpsim.Oid.Render.{decimal, decimal-All}
use go_snmpsim.Sort.{quick_sort_all, quick_sort}
use go_snmpsim.Snmp.{Asn1Ber, counter32, gauge32, timeticks, Value, uint32, OidEntry}
use go_snmpsim.Strconv.Clamped.{parse_int_value}
use go_snmpsim.Strconv.Clamped.Printed.{parse_int_value-decimal}
use go_snmpsim.Strconv.Scan.{split}
use go_snmpsim.Strconv.Substrings.{trim_prefix}
use go_snmpsim.Loader.{get_snmp_type, parse_template_value}
use go_snmpsim.Loader.Templates.{collect_templates}
use go_snmpsim.SnmprecFormat.{
  Entry, type_name, value_string, entry_from_pdu, sort_entries, line_of, lines_of, write_file,
}
use go_snmpsim.SnmprecFormat.Fields.{IsField, is_mark, line_with, collect_templates-line}

abbrev pub IsCounter : Asn1Ber → Type 0
IsCounter t = (t ≡ counter32) ⊎ ((t ≡ gauge32) ⊎ (t ≡ timeticks))

-- What is left of a number of `bits` bits.
abbrev cut_off : ℕ → ℕ → ℕ
cut_off bits n = if leb n (2 ^ (bits - 1) - 1) then n else 2 ^ (bits - 1) - 1

-- The texts that a counter is written as.
abbrev texts_of : Bytes → Asn1Ber → ℕ → Entry
texts_of oid t n = record { oid = oid; type = type_name t; value = decimal n [] }

recorded-counter :
    (oid : Bytes) (t : Asn1Ber) (n : ℕ)
    → IsCounter t
    → entry_from_pdu (b'.' ∷ oid) t (uint32 n) ≡ some (texts_of oid t n)
unfolding entry_from_pdu value_string trim_prefix type_name
recorded-counter oid t n (inl e) = rw e refl
recorded-counter oid t n (inr (inl e)) = rw e refl
recorded-counter oid t n (inr (inr e)) = rw e refl

written-one :
    (entry : Entry)
    → write_file (entry ∷ []) ≡ line_with entry.oid entry.type entry.value ++ 10 ∷ []
unfolding write_file sort_entries quick_sort_all quick_sort lines_of line_of
written-one entry =
    append-nil _
    ∙ sym (
        append_assoc entry.oid (b'|' ∷ (entry.type ++ b'|' ∷ entry.value)) (10 ∷ [])
        ∙ ap (λ rest. entry.oid ++ b'|' ∷ rest)
            (append_assoc entry.type (b'|' ∷ entry.value) (10 ∷ [])))

-- The type and the value of the texts, for a number that fits.
read-counter :
    (t : Asn1Ber) (n : ℕ)
    → IsCounter t
    → (get_snmp_type (type_name t) ≡ t)
      × (parse_template_value (type_name t) (decimal n [])
          ≡ uint32 (parse_int_value 32 (decimal n []) % 2 ^ 32))
unfolding type_name get_snmp_type parse_template_value
read-counter t n (inl e) = rw e (refl, refl)
read-counter t n (inr (inl e)) = rw e (refl, refl)
read-counter t n (inr (inr e)) = rw e (refl, refl)

name-IsField : (t : Asn1Ber) → IsCounter t → IsField (type_name t)
unfolding type_name
name-IsField t (inl e) =
    rw e (refl, (refl, (refl, (refl, (refl, (refl, (refl, (refl, (refl, tt)))))))))
name-IsField t (inr (inl e)) = rw e (refl, (refl, (refl, (refl, (refl, (refl, (refl, tt)))))))
name-IsField t (inr (inr e)) =
    rw e (refl, (refl, (refl, (refl, (refl, (refl, (refl, (refl, (refl, tt)))))))))

byte-is_mark : (c : ℕ) → IsOidByte c → is_mark c ≡ false
byte-is_mark c (inl e) = ground (arith, e)
byte-is_mark c (inr e) = rw e refl

oid-IsField : (s : Bytes) → All IsOidByte s → IsField s
oid-IsField [] h = tt
oid-IsField (c ∷ s) h = (byte-is_mark c h.0, oid-IsField s h.1)

digits-IsField : (n : ℕ) → IsField (decimal n [])
digits-IsField n = oid-IsField (decimal n []) (decimal-All IsOidByte (λ c h. inl h) n [] tt)

-- A Counter32, a Gauge32 or TimeTicks of 32 bits is recorded under an OID of digits and dots. In the
-- file that is written for it the simulator finds no template and one entry, of the same OID and type.
-- A value below 2 ^ 31 is kept, and any greater one becomes 2 ^ 31 - 1.
pub replayed-counter :
    (oid : Bytes) (t : Asn1Ber) (n : ℕ)
    → All IsOidByte oid
    → is_empty oid ≡ false
    → IsCounter t
    → n < 2 ^ 32
    → (entry : Entry) × (entry_from_pdu (b'.' ∷ oid) t (uint32 n) ≡ some entry)
      × (collect_templates (split 10 (write_file (entry ∷ []))) ≡ (
        [],
        (record { oid = oid; type = t; value = uint32 (if ltb n (2 ^ 31) then n else 2 ^ 31 - 1) })
            ∷ [],
      ))
replayed-counter oid t n bytes named counter h =
    let entry = texts_of oid t n in
    let read : parse_int_value 32 (decimal n []) ≡ cut_off 32 n =
      parse_int_value-decimal 32 n (omega arith) in
    let kept : cut_off 32 n % 2 ^ 32 ≡ (if ltb n (2 ^ 31) then n else 2 ^ 31 - 1) = ground arith in
    let (same_type, value) = read-counter t n counter in
    let loaded =
      collect_templates-line oid (type_name t) (decimal n []) (oid-IsField oid bytes)
        (name-IsField t counter) (digits-IsField n) named in
    (
      entry,
      recorded-counter oid t n counter,
      ap (λ s. collect_templates (split 10 s)) (written-one entry)
          ∙ loaded
          ∙ ap (λ k. ([], k ∷ []))
              (entry_of same_type (value ∙ ap (λ k. uint32 (k % 2 ^ 32)) read ∙ ap uint32 kept)),
    )
  where
    entry_of :
        {s t : Asn1Ber} {v w : Value}
        → s ≡ t
        → v ≡ w
        → ◌≡◌ {A = OidEntry}
            (record { oid = oid; type = s; value = v })
            (record { oid = oid; type = t; value = w })
    entry_of e f = rw (e, f) refl
