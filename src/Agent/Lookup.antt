-- ===== src/Agent/Lookup.antt =====
-- internal/agent/agent.go: where the value of an OID comes from.
use go_snmpsim.Prelude.{
  ◌≡◌, refl, Bool, Bool-cases, true, false, Option, none, some, Option-cases, inl, inr, List, [],
  ◌∷◌, Bytes, bytes_eq, text_eq, lookup, lookup-put, ◌&&◌, if◌then◌else◌,
}
use go_snmpsim.Snmp.{OidValue, Value, octet_string}
use go_snmpsim.Database.{OidDatabase, get}
use go_snmpsim.Agent.{
  VirtualAgent, Outside, normalize_oid, not_found, mapped, get_system_oid, get_normal_value,
  get_oid_value, set_oid_value,
}

-- The first source that has a value.
pub first_of {ℓ} : {A : Type ℓ} → List (Option A) → A → A
first_of [] d = d
first_of (none ∷ os) d = first_of os d
first_of (some a ∷ os) d = a

abbrev pub overlaid : Option Value → Option OidValue
overlaid none = none
overlaid (some v) = some (record { type = octet_string; value = v })

abbrev pub is_none {ℓ} : {A : Type ℓ} → Option A → Bool
is_none none = true
is_none (some a) = false

module _ {W : Type 0} (outside : Outside W) (va : VirtualAgent) where
  -- The value of an OID is that of the mapping for the agent's port and name, else that of the
  -- overlay, else that of the system, else that of the database, else noSuchObject; a dot in front of
  -- the OID does not matter to any of them.
  pub get_oid_value-first_of :
      (odb : OidDatabase) (oid : Bytes) (w : W)
      → let o = normalize_oid oid in
        (get_oid_value outside va (some odb) oid w).0
        ≡ first_of
            (mapped outside va va.device_mapping o
              ∷ overlaid (lookup o va.device_overlay)
              ∷ (get_system_oid outside va o w).0
              ∷ get odb o
              ∷ [])
            not_found
  unfolding get_oid_value get_normal_value first_of
  get_oid_value-first_of odb oid w =
      let o = normalize_oid oid in
      elim (Option-cases (mapped outside va va.device_mapping o)) [
        | inl e ↦ elim (Option-cases (lookup o va.device_overlay)) [
          | inl f ↦ elim (Option-cases (get_system_oid outside va o w).0) [
            | inl g ↦ elim (Option-cases (get odb o)) [
              | inl h ↦ rw (e, f, g, h, get_normal_value, first_of)
              | inr (v, h) ↦ rw (e, f, g, h, get_normal_value, first_of)
            ]
            | inr (v, g) ↦ rw (e, f, g, get_normal_value, first_of)
          ]
          | inr (v, f) ↦ rw (e, f, get_normal_value, first_of)
        ]
        | inr (v, e) ↦ rw (e, get_normal_value, first_of)
      ]

  system_same :
      (oid : Bytes) (value : Value) (o : Bytes) (w : W)
      → get_system_oid outside (set_oid_value oid value va) o w ≡ get_system_oid outside va o w
  unfolding get_system_oid set_oid_value
  system_same oid value o w = refl

  -- After `SetOIDValue` a lookup answers the value that was set, as a text, if the OID without its
  -- dot is the key that was given and no mapping has a value for it; every other lookup answers what
  -- it did before.
  pub get_oid_value-set_oid_value :
      (odb : OidDatabase) (oid : Bytes) (value : Value) (j : Bytes) (w : W)
      → get_oid_value outside (set_oid_value oid value va) (some odb) j w ≡ (
          if is_none (mapped outside va va.device_mapping (normalize_oid j))
            && bytes_eq oid (normalize_oid j)
          then (record { type = octet_string; value = value }, w)
          else get_oid_value outside va (some odb) j w)
  unfolding get_oid_value get_normal_value set_oid_value
  get_oid_value-set_oid_value odb oid value j w =
      let o = normalize_oid j in
      elim (Option-cases (mapped outside va va.device_mapping o)) [
        | inl e ↦
            let put_at = lookup-put oid o value va.device_overlay in
            elim (Bool-cases (bytes_eq oid o)) [
              | inl same ↦ rw (e, get_normal_value, put_at, same)
              | inr other ↦ elim (Option-cases (lookup o va.device_overlay)) [
                | inl f ↦ rw (e, get_normal_value, put_at, other, f, system_same oid value o w)
                | inr (v, f) ↦ rw (e, get_normal_value, put_at, other, f)
              ]
            ]
        | inr (v, e) ↦ rw (e, get_normal_value)
      ]
