-- ===== src/Labs/Sound.antt =====
-- cmd/snmpsim-api/main.go: the labs and engines of a resource manager that has answered requests, one
-- after the other.
use go_snmpsim.Prelude.{
  ℕ, suc, ◌+◌, ◌^◌, ◌≤◌, ◌<◌, ◌≡◌, refl, sym, ap, ◌∙◌, Bool, true, false, Option, none, some, Bytes,
  codes, bytes_eq, bytes_eq_iff, text_eq, Map, lookup, put, erase, lookup-put, lookup-erase, arith,
  Bool-cases, Option-cases, inl, inr, if◌then◌else◌,
}
use go_snmpsim.Labs.{
  Lab, LabEngine, Endpoint, User, Dataset, Status, is_running, ResourceManager, numbered, next_of,
  set_status, delete_lab,
}
use go_snmpsim.Labs.Keys.{
  IsMap, is_there, runs, restatus, runs-restatus, lookup-set_status, numbered_injective,
}

-- A running lab has its engine.
abbrev pub backed : Map Bytes LabEngine → Option Lab → Bool
backed engines none = true
backed engines (some lab) =
    if is_running lab.status then is_there (lookup lab.engine_id engines) else true

-- The manager has made at most `n` ids. No lab has two simulators. The labs that run are those with a simulator and those with a
-- function that cancels it, the engine of a running lab is there, and the next ids of labs are free.
pub record IsSound {S : Type 0} (n : ℕ) (rm : ResourceManager S) : Type 0 where
  pub counted : rm.next_id ≤ n
  pub simulated : (id : Bytes) → runs (lookup id rm.labs) ≡ is_there (lookup id rm.lab_simulators)
  pub cancellable : (id : Bytes) → lookup id rm.lab_simulators ≡ lookup id rm.lab_cancels
  pub distinct : IsMap rm.lab_simulators
  pub engined : (id : Bytes) → backed rm.engines (lookup id rm.labs) ≡ true
  pub fresh :
      (k : ℕ) → rm.next_id ≤ k → k < 2 ^ 63 → lookup (numbered (codes "lab") k) rm.labs ≡ none

runs-none : (o : Option Lab) → o ≡ none → runs o ≡ false
runs-none o e = rw e

module _ {S : Type 0} (n : ℕ) (small : n < 2 ^ 63) (rm : ResourceManager S) (h : IsSound n rm) where
  next_of_small : next_of rm.next_id ≡ rm.next_id + 1
  next_of_small = let below = h.counted in omega arith

  other_number :
      (k : ℕ)
      → next_of rm.next_id ≤ k
      → k < 2 ^ 63
      → bytes_eq (numbered (codes "lab") rm.next_id) (numbered (codes "lab") k) ≡ false
  other_number k after fits =
      elim (Bool-cases (bytes_eq (numbered (codes "lab") rm.next_id) (numbered (codes "lab") k))) [
        | inr e ↦ e
        | inl e ↦
            let below = h.counted in
            let same =
              (bytes_eq_iff (numbered (codes "lab") rm.next_id) (numbered (codes "lab") k)).0 e in
            let equal = numbered_injective (codes "lab") rm.next_id k (omega arith) fits same in
            absurd (omega arith)
      ]

  pub later-IsSound : IsSound (suc n) rm
  later-IsSound = record {
    counted = let below = h.counted in omega arith;
    simulated = h.simulated;
    cancellable = h.cancellable;
    distinct = h.distinct;
    engined = h.engined;
    fresh = h.fresh;
  }

  -- The other resources do not matter, and an id may be spent.
  module _ (endpoints : Map Bytes Endpoint) (users : Map Bytes User)
      (datasets : Map Bytes Dataset) where
    pub later_with-IsSound :
        IsSound (suc n) (record rm { endpoints = endpoints; users = users; datasets = datasets })
    later_with-IsSound = record {
      counted = let below = h.counted in omega arith;
      simulated = h.simulated;
      cancellable = h.cancellable;
      distinct = h.distinct;
      engined = h.engined;
      fresh = h.fresh;
    }

    pub spent_with-IsSound : IsSound (suc n) (record rm {
      endpoints = endpoints;
      users = users;
      datasets = datasets;
      next_id = next_of rm.next_id;
    })
    spent_with-IsSound = record {
      counted = let below = h.counted in omega arith;
      simulated = h.simulated;
      cancellable = h.cancellable;
      distinct = h.distinct;
      engined = h.engined;
      fresh = λ k after fits. h.fresh k (let next = next_of_small in omega arith) fits;
    }

  pub put_lab-IsSound :
      (lab : Lab)
      → is_running lab.status ≡ false
      → IsSound (suc n) (record rm {
        labs = put (numbered (codes "lab") rm.next_id) lab rm.labs;
        next_id = next_of rm.next_id;
      })
  put_lab-IsSound lab still =
      let key = numbered (codes "lab") rm.next_id in
      let below = h.counted in
      let absent = h.fresh rm.next_id (omega arith) (omega arith) in
      record {
        counted = omega arith;
        simulated = λ id. elim (Bool-cases (bytes_eq key id)) [
          | inl e ↦
              let is = (bytes_eq_iff key id).0 e in
              let was : runs (lookup id rm.labs) ≡ false =
                runs-none (lookup id rm.labs) (ap (λ t. lookup t rm.labs) (sym is) ∙ absent) in
              rw (lookup-put, e) (still ∙ (sym was ∙ h.simulated id))
          | inr e ↦ rw (lookup-put, e) (h.simulated id)
        ];
        cancellable = h.cancellable;
        distinct = h.distinct;
        engined = λ id. elim (Bool-cases (bytes_eq key id)) [
          | inl e ↦ rw (lookup-put, e, still)
          | inr e ↦ rw (lookup-put, e) (h.engined id)
        ];
        fresh = λ k after fits.
            let other = other_number k after fits in
            rw (lookup-put, other) (h.fresh k (omega arith) fits);
      }

  pub erase_lab-IsSound :
      (id : Bytes)
      → runs (lookup id rm.labs) ≡ false
      → IsSound (suc n) (record rm { labs = erase id rm.labs })
  erase_lab-IsSound id still = record {
    counted = let below = h.counted in omega arith;
    simulated = λ j. elim (Bool-cases (bytes_eq id j)) [
      | inl e ↦
          let is : id ≡ j = (bytes_eq_iff id j).0 e in
          let off : runs (lookup j rm.labs) ≡ false = rw (← is) still in
          rw (lookup-erase, e) (sym off ∙ h.simulated j)
      | inr e ↦ rw (lookup-erase, e) (h.simulated j)
    ];
    cancellable = h.cancellable;
    distinct = h.distinct;
    engined = λ j. elim (Bool-cases (bytes_eq id j)) [
      | inl e ↦ rw (lookup-erase, e) refl
      | inr e ↦ rw (lookup-erase, e) (h.engined j)
    ];
    fresh = λ k after fits. elim (Bool-cases (bytes_eq id (numbered (codes "lab") k))) [
      | inl e ↦ rw (lookup-erase, e) refl
      | inr e ↦ rw (lookup-erase, e) (h.fresh k after fits)
    ];
  }

  -- A lab that is there gets a status, and the simulators go with it.
  pub set_status-IsSound :
      (id : Bytes) (status : Status) (sims : Map Bytes S)
      → is_there (lookup id rm.labs) ≡ true
      → backed rm.engines (restatus status (lookup id rm.labs)) ≡ true
      → ((j : Bytes)
          → is_there (lookup j sims)
            ≡ (if bytes_eq id j then is_running status else is_there (lookup j rm.lab_simulators)))
      → (cancels : Map Bytes S) → ((j : Bytes) → lookup j sims ≡ lookup j cancels)
      → IsMap sims
      → IsSound (suc n) (record rm {
        labs = set_status id status rm.labs;
        lab_simulators = sims;
        lab_cancels = cancels;
      })
  set_status-IsSound id status sims there back sim cancels same unique = record {
    counted = let below = h.counted in omega arith;
    simulated = λ j. elim (Bool-cases (bytes_eq id j)) [
      | inl e ↦
          let now : is_there (lookup j sims) ≡ is_running status = rw e at (sim j) in
          rw (lookup-set_status, e, runs-restatus, there, now) refl
      | inr e ↦
          let now : is_there (lookup j sims) ≡ is_there (lookup j rm.lab_simulators) =
            rw e at (sim j) in
          rw (lookup-set_status, e, now) (h.simulated j)
    ];
    cancellable = same;
    distinct = unique;
    engined = λ j. elim (Bool-cases (bytes_eq id j)) [
      | inl e ↦ rw (lookup-set_status, e) back
      | inr e ↦ rw (lookup-set_status, e) (h.engined j)
    ];
    fresh = λ k after fits. elim (Bool-cases (bytes_eq id (numbered (codes "lab") k))) [
      | inl e ↦
          let is = (bytes_eq_iff id (numbered (codes "lab") k)).0 e in
          let absent : lookup id rm.labs ≡ none = rw is (h.fresh k after fits) in
          rw (lookup-set_status, e, absent) refl
      | inr e ↦ rw (lookup-set_status, e) (h.fresh k after fits)
    ];
  }

  pub delete_lab-IsSound : (id : Bytes) → IsSound (suc n) (delete_lab id rm).1
  unfolding delete_lab
  delete_lab-IsSound id = elim (Option-cases (lookup id rm.labs)) [
    | inl e ↦ rw (delete_lab, e) later-IsSound
    | inr (lab, e) ↦ elim (Bool-cases (is_running lab.status)) [
      | inl on ↦ rw (delete_lab, e, on) later-IsSound
      | inr off ↦ rw (delete_lab, e, off) (erase_lab-IsSound id (rw e off))
    ]
  ]
