-- ===== src/DeviceMapping/Parse/Route.antt =====
-- internal/store/device_mapping.go: lines with a port at their end.
use go_snmpsim.Prelude.{
  ℕ, ◌^◌, ◌<◌, ◌≡◌, refl, Bool, true, false, some, [], ◌∷◌, ◌++◌, Bytes, trim_space,
  trim_space-no_space, is_space, All, Lacks, Lacks-append, arith, ◌==◌,
}
use go_snmpsim.Oid.{is_digit}
use go_snmpsim.Oid.Render.{decimal, decimal-All}
use go_snmpsim.Strconv.{split_n}
use go_snmpsim.Strconv.Cuts.{cut-append, cut-lacking, cut_last-append}
use go_snmpsim.Strconv.Decimal.{atoi-decimal}
use go_snmpsim.DeviceMapping.Parse.{
  ◌>>=◌, parse_type, parse_mapping_value, parse_route, split_route, parse_fields, parse_device_oid,
}

abbrev pub bar : ℕ → Bool
bar c = c == b'|'

abbrev pub at_sign : ℕ → Bool
at_sign c = c == b'@'

split_three :
    (p0 p1 p2 : Bytes)
    → Lacks bar p0
    → Lacks bar p1
    → Lacks bar p2
    → split_n 4 b'|' (p0 ++ (b'|' ∷ (p1 ++ (b'|' ∷ p2)))) ≡ p0 ∷ p1 ∷ p2 ∷ []
unfolding split_n
split_three p0 p1 p2 h0 h1 h2 =
    let first = cut-append b'|' p0 (p1 ++ (b'|' ∷ p2)) h0 in
    let second = cut-append b'|' p1 p2 h1 in
    rw (first, split_n, second, cut-lacking b'|' p2 h2, first, second)

decimal-Lacks :
    (p : ℕ → Bool) → ((c : ℕ) → is_digit c ≡ true → p c ≡ false) → (n : ℕ) → Lacks p (decimal n [])
decimal-Lacks p h n = from_All (decimal n []) (decimal-All (λ c. p c ≡ false) h n [] tt)
  where
    from_All : (s : Bytes) → All (λ c. p c ≡ false) s → Lacks p s
    from_All [] k = tt
    from_All (c ∷ s) k = (k.0, from_All s k.1)

-- A field without white space and without a bar.
pub record IsField (s : Bytes) : Type 0 where
  pub no_space : Lacks is_space s
  pub no_bar : Lacks bar s

-- `OID|TYPE|VALUE@PORT`
abbrev pub line : Bytes → Bytes → Bytes → ℕ → Bytes
line oid type_str value port =
    oid ++ (b'|' ∷ (type_str ++ (b'|' ∷ (value ++ (b'@' ∷ decimal port [])))))

-- A field with a port behind it.
routed-IsField :
    (value : Bytes) (port : ℕ) → IsField value → IsField (value ++ (b'@' ∷ decimal port []))
routed-IsField value port f = record {
  no_space =
      Lacks-append is_space value _ f.no_space
        (refl, decimal-Lacks is_space (λ c h. ground arith) port);
  no_bar = Lacks-append bar value _ f.no_bar (refl, decimal-Lacks bar (λ c h. ground arith) port);
}

split_route_port :
    (value : Bytes) (port : ℕ)
    → IsField value
    → port < 2 ^ 63
    → split_route (trim_space (value ++ (b'@' ∷ decimal port []))) ≡ (value, (port, [], 2))
unfolding split_route parse_route
split_route_port value port f h =
    let digits = decimal port [] in
    rw (
      trim_space-no_space _ (routed-IsField value port f).no_space,
      split_route,
      cut_last-append b'@' value digits (decimal-Lacks at_sign (λ c d. ground arith) port),
      trim_space-no_space value f.no_space,
      trim_space-no_space digits (decimal-Lacks is_space (λ c d. ground arith) port),
      parse_route,
      atoi-decimal port h,
    )

-- A line `OID|TYPE|VALUE@PORT`, whose fields hold no white space and no bar, is read as an entry for
-- that port with the highest priority, if its type is known and its value is one of the type, and
-- is refused otherwise. The value may hold `@` itself.
pub parse_device_oid_port :
    (oid type_str value : Bytes) (port : ℕ)
    → IsField oid
    → IsField type_str
    → IsField value
    → port < 2 ^ 63
    → parse_device_oid (line oid type_str value port) ≡ (
        parse_type type_str >>= λ t. parse_mapping_value t value >>= λ v.
        some (record { oid = oid; port = port; type = t; value = v; device_id = []; priority = 2 }))
unfolding parse_device_oid parse_fields
parse_device_oid_port oid type_str value port f0 f1 f2 h = rw (
  split_three oid type_str _ f0.no_bar f1.no_bar (routed-IsField value port f2).no_bar,
  trim_space-no_space oid f0.no_space,
  trim_space-no_space type_str f1.no_space,
  split_route_port value port f2 h,
)
