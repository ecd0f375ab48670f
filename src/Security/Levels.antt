-- ===== src/Security/Levels.antt =====
-- internal/v3/types.go: what a configuration that validates can do.
use go_snmpsim.Prelude.{
  ◌≡◌, ◌≢◌, Bool, true, false, ◌||◌, [], ◌∷◌, Bytes, is_empty, is_label, to_upper, arith,
  Bool-cases, inl, inr,
}
use go_snmpsim.Security.{
  Config, MsgFlags, no_auth_no_priv, auth_no_priv, auth_priv, no_auth, security_level,
  to_gosnmp_auth, validate,
}

-- A protocol with a name that gosnmp's protocols are found by, or none.
abbrev pub is_known_auth : Bytes → Bool
is_known_auth s =
    is_empty s
    || is_label (to_upper s) ("MD5" ∷ "SHA1" ∷ "SHA224" ∷ "SHA256" ∷ "SHA384" ∷ "SHA512" ∷ [])

-- The level promises what there is a protocol and a key for.
pub data Backed (c : Config) : MsgFlags → Type 0 where
  open_level : Backed c no_auth_no_priv
  signed : to_gosnmp_auth c ≢ no_auth → is_empty c.auth_key ≡ false → Backed c auth_no_priv
  sealed :
      to_gosnmp_auth c ≢ no_auth
      → is_empty c.auth_key ≡ false
      → is_empty c.priv_key ≡ false
      → Backed c auth_priv

known-auth :
    (c : Config)
    → is_empty c.auth ≡ false
    → is_known_auth c.auth ≡ true
    → to_gosnmp_auth c ≢ no_auth
unfolding to_gosnmp_auth
known-auth c some_auth known = λ e. ground (arith, some_auth, known, e)

-- The level of an enabled configuration that validates is one that it has an authentication protocol
-- and the keys for, if the authentication protocol is none or has a name that is known.
pub validate-Backed :
    (c : Config)
    → c.enabled ≡ true
    → validate c ≡ true
    → is_known_auth c.auth ≡ true
    → Backed c (security_level c)
unfolding validate security_level
validate-Backed c on valid known = elim (Bool-cases (is_empty c.auth)) [
  | inl no_protocol ↦ rw no_protocol open_level
  | inr some_auth ↦ elim (Bool-cases (is_empty c.priv)) [
    | inl no_privacy ↦
        rw (some_auth, no_privacy)
          (signed (known-auth c some_auth known) (ground (arith, on, valid, some_auth, no_privacy)))
    | inr some_priv ↦
        rw (some_auth, some_priv)
          (sealed (known-auth c some_auth known) (ground (arith, on, valid, some_auth, some_priv))
            (ground (arith, on, valid, some_auth, some_priv)))
  ]
]
