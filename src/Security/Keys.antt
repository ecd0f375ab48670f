-- ===== src/Security/Keys.antt =====
-- internal/v3/crypto.go. What it takes of the standard library's crypto packages is a parameter.
pub mod Stretched
use go_snmpsim.Prelude.{
  ℕ, zero, suc, ◌+◌, ◌-◌, ◌%◌, ◌≤◌, ◌<◌, ◌≡◌, refl, Bool, true, false, Option, none, some, List, [],
  ◌∷◌, ◌++◌, Bytes, codes, is_empty, is_label, bytes_eq, length, get_or, take, replicate, leb, ltb,
  arith, if◌then◌else◌,
}
use go_snmpsim.Security.{AuthProtocol, md5, sha, sha224, sha256, sha384, sha512}

-- The loop of `normalizeKey` from index `i` on, with `left` rounds to go.
pub normalize_loop : Bytes → ℕ → ℕ → Bytes
normalize_loop key i zero = []
normalize_loop key i (suc left) = get_or key (i % length key) 0 ∷ normalize_loop key (i + 1) left

unfoldable pub normalize_key : Bytes → ℕ → Bytes
unfolding normalize_loop
normalize_key key n = if is_empty key then replicate n 0 else normalize_loop key 0 n

abbrev pub stretched : ℕ
stretched = 1048576

-- The loop of `LocalizeKey` that repeats the passphrase, with fuel.
extend_loop : ℕ → ℕ → Bytes → Bytes → Bytes
extend_loop zero total passphrase extended = extended
extend_loop (suc fuel) total passphrase extended =
    let remaining = total - length extended in
    let whole = extend_loop fuel total passphrase (extended ++ passphrase) in
    let part = extend_loop fuel total passphrase (extended ++ take remaining passphrase) in
    if ltb (length extended) total
    then (if leb (length passphrase) remaining then whole else part)
    else extended

-- Each round adds a byte at least.
unfoldable pub extend : ℕ → Bytes → Bytes
unfolding extend_loop
extend total passphrase = extend_loop (total + 1) total passphrase []

-- `hashFunc`, by the protocol whose hash it is; the names are compared as they stand.
unfoldable pub hash_func : Bytes → Option AuthProtocol
hash_func proto =
    if is_label proto ("MD5" ∷ [])
    then some md5
    else if is_label proto ("SHA1" ∷ [])
    then some sha
    else if is_label proto ("SHA224" ∷ [])
    then some sha224
    else if is_label proto ("SHA256" ∷ [])
    then some sha256
    else if is_label proto ("SHA384" ∷ [])
    then some sha384
    else if is_label proto ("SHA512" ∷ [])
    then some sha512
    else none

-- The ciphers of the standard library.
pub data Cipher : Type 0 where
  des_cipher triple_des_cipher aes_cipher : Cipher

-- `blockForPriv`: the cipher and its key, which has a length that the cipher takes.
unfoldable pub block_for_priv : Bytes → Bytes → Option (Cipher × Bytes)
unfolding normalize_key
block_for_priv proto key =
    if is_label proto ("DES" ∷ [])
    then some (des_cipher, normalize_key key 8)
    else if is_label proto ("3DES" ∷ [])
    then some (triple_des_cipher, normalize_key key 24)
    else if is_label proto ("AES128" ∷ [])
    then some (aes_cipher, normalize_key key 16)
    else if is_label proto ("AES192" ∷ [])
    then some (aes_cipher, normalize_key key 24)
    else if is_label proto ("AES256" ∷ [])
    then some (aes_cipher, normalize_key key 32)
    else none

-- `block.BlockSize()`
abbrev block_size : Cipher → ℕ
block_size des_cipher = 8
block_size triple_des_cipher = 8
block_size aes_cipher = 16

-- What the source takes of the packages under crypto: the hash of a text, the HMAC of a text under a
-- key, and the streams of CFB.
pub record Crypto : Type 0 where
  pub hash : AuthProtocol → Bytes → Bytes
  pub hmac : AuthProtocol → Bytes → Bytes → Bytes
  pub cfb_encrypt : Cipher → Bytes → Bytes → Bytes → Bytes
  pub cfb_decrypt : Cipher → Bytes → Bytes → Bytes → Bytes

module _ (crypto : Crypto) where
  unfoldable pub hmac_digest : Bytes → Bytes → Bytes → Option Bytes
  unfolding hash_func
  hmac_digest proto key text = elim (hash_func proto) [
    | none ↦ none
    | some h ↦ some (crypto.hmac h key text)
  ]

  unfoldable pub verify_hmac : Bytes → Bytes → Bytes → Bytes → Option Bool
  unfolding hmac_digest
  verify_hmac proto key text digest = elim (hmac_digest proto key text) [
    | none ↦ none
    | some computed ↦ some (bytes_eq computed digest)
  ]

  unfoldable pub localize_key : Bytes → Bytes → Bytes → Option Bytes
  unfolding extend hash_func
  localize_key proto passphrase engine_id =
      if is_empty passphrase then none else elim (hash_func proto) [
        | none ↦ none
        | some h ↦
            let ku = crypto.hash h (extend stretched passphrase) in
            some (crypto.hash h (ku ++ (engine_id ++ ku)))
      ]

  -- `EncryptCFB` and `DecryptCFB`, which differ in the stream.
  with_cfb : (Cipher → Bytes → Bytes → Bytes → Bytes) → Bytes → Bytes → Bytes → Bytes → Option Bytes
  unfolding block_for_priv
  with_cfb stream proto key iv text = elim (block_for_priv proto key) [
    | none ↦ none
    | some (cipher, k) ↦
        if ltb (length iv) (block_size cipher)
        then none
        else some (stream cipher k (take (block_size cipher) iv) text)
  ]

  unfoldable pub encrypt_cfb : Bytes → Bytes → Bytes → Bytes → Option Bytes
  unfolding with_cfb
  encrypt_cfb proto key iv plaintext = with_cfb crypto.cfb_encrypt proto key iv plaintext

  unfoldable pub decrypt_cfb : Bytes → Bytes → Bytes → Bytes → Option Bytes
  unfolding with_cfb
  decrypt_cfb proto key iv ciphertext = with_cfb crypto.cfb_decrypt proto key iv ciphertext
