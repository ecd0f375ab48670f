-- ===== src/Security/Tests.antt =====
-- Concrete configurations, engines and keys.
use go_snmpsim.Prelude.{◌≡◌, refl, true, List, [], ◌∷◌, Bytes, codes, text_eq, to_upper}
use go_snmpsim.Security.{Config, auth_priv, no_auth, security_level, to_gosnmp_auth, validate}
use go_snmpsim.Security.Hex.{parse_engine_id}
use go_snmpsim.Security.Levels.{is_known_auth}
use go_snmpsim.Security.Keys.{extend}

abbrev config_with : Bytes → Config
config_with auth = record {
  enabled = true;
  engine_id = [];
  username = codes "user";
  auth = auth;
  auth_key = codes "authentication";
  priv = codes "AES128";
  priv_key = codes "privacy";
}

valid : validate (config_with (codes "sha256")) ≡ true
unfolding validate
valid = refl

known : is_known_auth (codes "sha256") ≡ true
unfolding to_upper
known = refl

-- A configuration that validates for the highest level, although no protocol stands behind it.
sha_is_valid : validate (config_with (codes "SHA")) ≡ true
unfolding validate
sha_is_valid = refl

sha_level : security_level (config_with (codes "SHA")) ≡ auth_priv
unfolding security_level
sha_level = refl

sha_unknown : to_gosnmp_auth (config_with (codes "SHA")) ≡ no_auth
unfolding to_gosnmp_auth
sha_unknown = refl

abbrev two_engines : List Bytes
two_engines = codes "a" ∷ codes "b" ∷ codes "a" ∷ []

stretched : extend 10 (codes "pass") ≡ codes "passpasspa"
unfolding extend
stretched = refl

engine : parse_engine_id (codes " 0x80001F88 ") ≡ 128 ∷ 0 ∷ 31 ∷ 136 ∷ []
unfolding parse_engine_id
engine = refl
