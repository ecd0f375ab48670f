-- ===== src/Recorder/Repeats.antt =====
-- internal/recorder/record.go: the walk of an agent that answers the OID that it was asked for.
use go_snmpsim.Prelude.{
  ℕ, zero, suc, ◌≡◌, refl, true, false, none, some, List, ◌∷◌, Bytes, text_eq, Map, lookup, put,
  Bool-cases, inl, inr, bytes_eq_refl,
}
use go_snmpsim.Snmp.{Asn1Ber, Value}
use go_snmpsim.SnmprecFormat.{Entry, entry_from_pdu}
use go_snmpsim.Recorder.{
  Client, variable, is_in_subtree, should_exclude, is_known, ends_walk, take_answer, walk_loop,
  walk_root,
}
use go_snmpsim.Recorder.Noted.{trim_dot}

-- A walk without a limit never ends, if the agent answers every request for the root with the root itself
-- and a value that can be converted and whose type does not end a walk: every amount of fuel runs out.
pub walk_root-repeated :
    {W : Type 0} (client : Client W) (exs : List Bytes) (root : Bytes) {ber : Asn1Ber}
    {value : Value} {made : Entry}
    → ends_walk ber ≡ false
    → entry_from_pdu root ber value ≡ some made
    → ((v : W) → (client root v).0 ≡ variable (b'.' ∷ root) ber value)
    → (fuel : ℕ) (entries : Map Bytes Entry) (w : W)
    → walk_root client exs 0 fuel root entries w ≡ none
unfolding walk_root walk_loop
walk_root-repeated client exs root typed converts same zero entries w = refl
walk_root-repeated client exs root {ber} {value} {made} typed converts same (suc fuel) entries w =
    let here : is_in_subtree root root ≡ true =
      unfold is_in_subtree in rw (bytes_eq_refl root) refl in
    let next = walk_root-repeated client exs root typed converts same fuel in
    let v = (client root w).1 in
    elim (Bool-cases (should_exclude root exs)) [
      | inl out ↦
          rw (walk_loop, same w, take_answer, typed, trim_dot root, here, out) (next entries v)
      | inr kept ↦ elim (Bool-cases (is_known (lookup root entries))) [
        | inl known ↦
            rw (walk_loop, same w, take_answer, typed, trim_dot root, here, kept, known)
              (next entries v)
        | inr new ↦
            rw (walk_loop, same w, take_answer, typed, trim_dot root, here, kept, new, converts)
              (next (put root made entries) v)
      ]
    ]
