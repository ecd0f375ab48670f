-- ===== src/Labs/Races.antt =====
-- cmd/snmpsim-api/main.go: requests that run between the two locks of `StartLab`. `start_begin` is what it
-- does under the first lock, `start_finish` under the second.
use go_snmpsim.Prelude.{
  ℕ, ◌≡◌, refl, ap, Option, none, some, Bytes, bytes_eq_refl, text_eq, lookup, lookup-put_self,
  lookup-erase, Bool-cases, Option-cases, inl, inr,
}
use go_snmpsim.Labs.{
  Lab, LabEngine, is_running, ResourceManager, Host, refused, start_begin, start_finish, set_status,
  delete_lab,
}
use go_snmpsim.Labs.Lifecycle.{stop_lab}

module _ {S W : Type 0} (host : Host S W) where
  -- A lab that passed the first checks of `StartLab`, and that is deleted before its simulator has been
  -- started: the deletion is answered with 204, the simulator is then kept under an id that no lab has, and a
  -- request to stop it is answered with 404 and stops nothing.
  pub start_lab-deleted :
      (id : Bytes) (rm : ResourceManager S) (w : W) (sim : S) {code : ℕ} {lab : Lab}
      {eng : LabEngine}
      → start_begin id rm ≡ (code, some (lab, eng))
      → let (deleted, between) = delete_lab id rm in
        let left = start_finish id sim between in
        (deleted ≡ 204)
        × (lookup id left.lab_simulators ≡ some sim)
        × (lookup id left.labs ≡ none)
        × (stop_lab host id left w ≡ (refused 404, left, w))
  unfolding start_begin delete_lab start_finish set_status stop_lab
  start_lab-deleted id rm w sim {code} {lab} {eng} h = elim (Option-cases (lookup id rm.labs)) [
    | inl e ↦
        let no : ◌≡◌ {A = ℕ × Option (Lab × LabEngine)} (404, none) (code, some (lab, eng)) =
          rw (start_begin, e) at h in
        let absurd_at : ◌≡◌ {A = Option (Lab × LabEngine)} none (some (lab, eng)) =
          ap (λ p. p.1) no in
        cc
    | inr (at, e) ↦ elim (Bool-cases (is_running at.status)) [
      | inl on ↦
          let no : ◌≡◌ {A = ℕ × Option (Lab × LabEngine)} (409, none) (code, some (lab, eng)) =
            rw (start_begin, e, on) at h in
          let absurd_at : ◌≡◌ {A = Option (Lab × LabEngine)} none (some (lab, eng)) =
            ap (λ p. p.1) no in
          cc
      | inr off ↦
          let gone : lookup id (delete_lab id rm).1.labs ≡ none =
            rw (delete_lab, e, off, lookup-erase, bytes_eq_refl id) refl in
          let lost : lookup id (start_finish id sim (delete_lab id rm).1).labs ≡ none =
            rw (start_finish, set_status, gone) gone in
          (
            rw (delete_lab, e, off) refl,
            rw (delete_lab, start_finish, e, off) (lookup-put_self id sim rm.lab_simulators),
            lost,
            rw (stop_lab, lost) refl,
          )
    ]
  ]
