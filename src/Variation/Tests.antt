-- ===== src/Variation/Tests.antt =====
-- Variations at concrete answers.
use go_snmpsim.Prelude.{
  ℕ, suc, ◌+◌, ◌*◌, ◌%◌, ◌^◌, ◌≡◌, refl, Option, none, some, List, [], ◌∷◌, Bytes, codes,
  trim_space, arith, text_eq,
}
use go_snmpsim.Snmp.{Pdu, counter32, uint32}
use go_snmpsim.Variation.{
  Variation, random_jitter, drop_oid, timeout, done, panicked, to_int64, apply, apply_chain,
  or_else_base, with_value, new_counter_monotonic, new_random_jitter,
}
use go_snmpsim.Variation.Failures.{verdict, first_error, apply_chain-verdict}
use go_snmpsim.Variation.Monotonic.{Request, after, first_number, numbers, counter-after}
use go_snmpsim.Variation.Binder.{BindingSpec, VariationSpec, PrefixChain, build_bindings}

-- A random source that always draws zero.
abbrev zero_source : Unit {0} → ℕ → ℕ × Unit {0}
zero_source s n = (0, s)

abbrev in_octets : Pdu
in_octets = record { name = codes "1.3.1"; type = counter32; value = uint32 4294967295 }

abbrev twice : List Request
twice = (0, in_octets) ∷ (10, in_octets) ∷ []

read : to_int64 (uint32 4294967295) ≡ some 4294967295
unfolding to_int64
read = refl

counter-after_example :
    let rs = twice in
    let first = or_else_base 4294967295 (first_number in_octets.name rs) in
    (apply zero_source 20 in_octets (after zero_source rs (new_counter_monotonic 0))).1
    ≡ done (with_value in_octets ((first + suc (numbers in_octets.name rs) * 1) % 2 ^ 64))
counter-after_example = counter-after zero_source 0 twice 20 in_octets 4294967295 read

abbrev some_chain : List (Variation (Unit {0}))
some_chain = random_jitter 5 tt ∷ timeout 3 ∷ drop_oid ∷ []

apply_chain-verdict_example :
    verdict (apply_chain zero_source 7 in_octets some_chain).1 ≡ some (first_error some_chain)
apply_chain-verdict_example =
    apply_chain-verdict zero_source 7 some_chain in_octets (omega arith, (tt, (tt, tt)))

-- The bound of a jitter of 2 ^ 62 overflows.
jitter_overflow :
    (apply zero_source 7 in_octets (new_random_jitter (λ seed. tt) 4611686018427387904 1)).1
    ≡ panicked
unfolding apply new_random_jitter to_int64
jitter_overflow = refl

abbrev no_duration : Bytes → Option ℕ
no_duration s = none

abbrev drop_all : VariationSpec
drop_all = record { type = codes "dropOID"; delta = 0; max = 0; seed = 0; period = []; delay = [] }

abbrev two_bindings : List BindingSpec
two_bindings =
    record { prefix = codes ".1.3"; variations = drop_all ∷ [] }
    ∷ record { prefix = codes "1.3.1"; variations = [] }
    ∷ []

abbrev two_chains : List (PrefixChain (Unit {0}))
two_chains =
    record { prefix = codes "1.3"; chain = drop_oid ∷ [] }
    ∷ record { prefix = codes "1.3.1"; chain = [] }
    ∷ []

abbrev unit_source : ℕ → Unit {0}
unit_source seed = tt

built : build_bindings no_duration unit_source two_bindings ≡ some two_chains
unfolding build_bindings trim_space
built = refl
