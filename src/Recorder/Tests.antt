-- ===== src/Recorder/Tests.antt =====
-- Walks of internal/recorder/record.go.
use go_snmpsim.Prelude.{
  ℕ, ◌≡◌, refl, true, false, not, ◌&&◌, none, some, [], ◌∷◌, Bytes, codes, All, Map, text_eq,
  lookup, put, arith, if◌then◌else◌,
}
use go_snmpsim.Oid.{is_oid_less}
use go_snmpsim.Oid.Render.{IsCanonical, render, decimal, render_tail, render-IsCanonical}
use go_snmpsim.Snmp.{OidValue, integer, int}
use go_snmpsim.Strconv.Substrings.{trim_prefix}
use go_snmpsim.SnmprecFormat.{Entry, entry_from_pdu}
use go_snmpsim.Sort.{search}
use go_snmpsim.Positions.{search_oid_position}
use go_snmpsim.Positions.Ascending.{IsAscending}
use go_snmpsim.Database.{OidDatabase, get_next}
use go_snmpsim.Recorder.{
  Client, variable, done, is_in_subtree, should_exclude, walk_root, walk_roots,
}
use go_snmpsim.Recorder.Walks.{is_below, Within, walk_roots-recorded}
use go_snmpsim.Recorder.Agents.{database_client, walk_root-database}
use go_snmpsim.Recorder.Noted.{is_among}
use go_snmpsim.Recorder.Repeats.{walk_root-repeated}
use go_snmpsim.Recorder.Connect.{v3_credentials}

abbrev five : OidValue
five = record { type = integer; value = int 5 }

abbrev five_at : Bytes → Entry
five_at oid = record {
  oid = trim_prefix oid (codes ".");
  type = codes "integer";
  value = codes "5";
}

five_converts : (oid : Bytes) → entry_from_pdu oid integer (int 5) ≡ some (five_at oid)
unfolding entry_from_pdu decimal
five_converts oid = refl

-- A walk of `1.3`, where `1.3.6` is excluded, ends at `1.4`.
abbrev three_oids : OidDatabase
three_oids = record { shards = []; sorted_oids = codes "1.3.6" ∷ codes "1.3.7" ∷ codes "1.4" ∷ [] }

root-IsCanonical : IsCanonical (codes "1.3")
root-IsCanonical =
    unfold render decimal render_tail in
    render-IsCanonical (1 ∷ 3 ∷ []) (omega arith, (omega arith, tt))

three_oids-IsAscending : IsAscending three_oids.sorted_oids
three_oids-IsAscending = record {
  canonical =
      unfold render decimal render_tail in
      (
        render-IsCanonical (1 ∷ 3 ∷ 6 ∷ []) (omega arith, (omega arith, (omega arith, tt))),
        (
          render-IsCanonical (1 ∷ 3 ∷ 7 ∷ []) (omega arith, (omega arith, (omega arith, tt))),
          (render-IsCanonical (1 ∷ 4 ∷ []) (omega arith, (omega arith, tt)), tt),
        ),
      );
  ordered = unfold is_oid_less in ((refl, (refl, tt)), ((refl, tt), (tt, tt)));
}

walk_root-database_example :
    (entries : Map Bytes Entry) × (walk_root {W = ℕ}
        (database_client three_oids (λ oid. five))
        (codes "1.3.6" ∷ [])
        0
        4
        (codes "1.3")
        []
        0
      ≡ some (done, entries, 0))
    × ((oid : Bytes)
        → lookup oid entries ≡ (
            if is_among oid (codes "1.3.6" ∷ codes "1.3.7" ∷ [])
              && not (should_exclude oid (codes "1.3.6" ∷ []))
            then some (five_at oid)
            else none))
unfolding is_oid_less is_in_subtree
walk_root-database_example =
    walk_root-database {W = ℕ} three_oids (λ oid. five) five_at (codes "1.3.6" ∷ []) (codes "1.3") 0
      three_oids-IsAscending (refl, (refl, (refl, tt))) (λ oid. refl) five_converts root-IsCanonical

abbrev repeating : Client ℕ
repeating oid w = (variable (codes ".1.3") integer (int 5), w)

walk_root-repeated_example : walk_root repeating [] 0 100 (codes "1.3") [] 0 ≡ none
walk_root-repeated_example =
    walk_root-repeated repeating [] (codes "1.3") refl (five_converts (codes "1.3")) (λ v. refl) 100
      [] 0

-- With a limit of one entry.
walk_roots-recorded_example :
    let entries : Map Bytes Entry = (codes "1.3.6", five_at (codes "1.3.6")) ∷ [] in
    All
      (λ (oid, entry). (is_below oid (codes ".1.3" ∷ []) ≡ true) × (should_exclude oid [] ≡ false))
      entries
    × Within 1 entries
unfolding walk_roots get_next search_oid_position search is_oid_less is_in_subtree trim_prefix
    should_exclude entry_from_pdu decimal lookup put
walk_roots-recorded_example =
    walk_roots-recorded {W = ℕ} (database_client three_oids (λ oid. five)) [] 1 5
      (codes ".1.3" ∷ []) 0 (omega arith) refl

-- An authentication protocol without a key is an error.
v3_credentials_example :
    v3_credentials (record {
      target = [];
      port = 0;
      timeout = 0;
      retries = 0;
      max_oids = 0;
      roots = [];
      exclude = [];
      community = [];
      v3_user = codes "u";
      v3_auth = codes " sha ";
      v3_auth_key = [];
      v3_priv = [];
      v3_priv_key = [];
    })
    ≡ none
unfolding v3_credentials
v3_credentials_example = refl
