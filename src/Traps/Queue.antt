-- ===== src/Traps/Queue.antt =====
-- internal/traps/traps.go: the queue of a manager over time.
use mathlib.Core.List.{append_assoc, append-nil}
use go_snmpsim.Prelude.{
  ℕ, zero, suc, ◌≤◌, ◌≡◌, ◌∙◌, refl, sym, ap, Bool, true, false, some, List, [], ◌∷◌, ◌++◌, length,
  length-append, take, ltb, arith, Bool-cases, inl, inr, if_either, if◌then◌else◌, ◌||◌,
}
use go_snmpsim.Traps.{
  Config, Message, Manager, on_set_of, new_manager, queue_size, enqueue, enqueue_cron_event,
  enqueue_variation_event, enqueue_set_event, set_oid, wants_set,
}
use go_snmpsim.Traps.Made.{new_manager-fields}
use go_snmpsim.Traps.Wanted.{
  Event, cron, variation, set, happen, happened, wanted, all_wanted, wants_set-names, names,
  all_empty,
}

-- What happens to a manager: an event, or its loop takes the first message.
pub data Step : Manager → Manager → Type 0 where
  event : (m : Manager) (e : Event) → Step m (happen e m)
  taken :
      (m : Manager) (message : Message) (rest : List Message)
      → m.queue ≡ message ∷ rest
      → Step m (record m { queue = rest })

pub data Reach (m : Manager) : Manager → Type 0 where
  here : Reach m m
  next : {n o : Manager} → Reach m n → Step n o → Reach m o

-- The manager decides as the configuration says, and has no more messages than its channel takes.
record Decides (cfg : Config) (m : Manager) : Type 0 where
  same_variation : m.on_variation ≡ cfg.on_variation
  same_oids : m.on_set_oids ≡ on_set_of cfg.on_set_oids
  short : length m.queue ≤ queue_size

take-all : (k : ℕ) (xs : List Message) → length xs ≤ k → take k xs ≡ xs
take-all zero [] h = refl
take-all zero (x ∷ xs) h = absurd (omega arith)
take-all (suc k) [] h = refl
take-all (suc k) (x ∷ xs) h = ap (λ ys. x ∷ ys) (take-all k xs (omega arith))

take-append_exact : (k : ℕ) (xs ys : List Message) → length xs ≡ k → take k (xs ++ ys) ≡ xs
take-append_exact zero [] ys h = refl
take-append_exact zero (x ∷ xs) ys h = absurd (omega arith)
take-append_exact (suc k) [] ys h = absurd (omega arith)
take-append_exact (suc k) (x ∷ xs) ys h =
    ap (λ zs. x ∷ zs) (take-append_exact k xs ys (omega arith))

take-take_append : (k : ℕ) (xs ys : List Message) → take k (take k xs ++ ys) ≡ take k (xs ++ ys)
take-take_append zero xs ys = refl
take-take_append (suc k) [] ys = refl
take-take_append (suc k) (x ∷ xs) ys = ap (λ zs. x ∷ zs) (take-take_append k xs ys)

enqueue-queue :
    (x : Message) (m : Manager)
    → length m.queue ≤ queue_size
    → (enqueue x m).queue ≡ take queue_size (m.queue ++ x ∷ [])
unfolding enqueue
enqueue-queue x m h = elim (Bool-cases (ltb (length m.queue) queue_size)) [
  | inl room ↦ rw room (
      sym
        (take-all queue_size (m.queue ++ x ∷ []) (ground (arith, length-append m.queue (x ∷ [])))))
  | inr full ↦ rw full (sym (take-append_exact queue_size m.queue (x ∷ []) (ground arith)))
]

enqueue-Decides :
    (cfg : Config) (x : Message) (m : Manager) → Decides cfg m → Decides cfg (enqueue x m)
unfolding enqueue
enqueue-Decides cfg x m d = elim (Bool-cases (ltb (length m.queue) queue_size)) [
  | inl room ↦ rw room (record {
    same_variation = d.same_variation;
    same_oids = d.same_oids;
    short = ground (arith, length-append m.queue (x ∷ []));
  })
  | inr full ↦ rw full d
]

happen-Decides : (cfg : Config) (e : Event) (m : Manager) → Decides cfg m → Decides cfg (happen e m)
unfolding enqueue_cron_event enqueue_variation_event enqueue_set_event
happen-Decides cfg (cron spec) m d = enqueue-Decides cfg _ m d
happen-Decides cfg (variation device_id port oid detail) m d =
    if_either (Decides cfg) m.on_variation (enqueue-Decides cfg _ m d) d
happen-Decides cfg (set device_id port oid value_type value_text) m d =
    if_either (Decides cfg) (wants_set m (set_oid oid)) (enqueue-Decides cfg _ m d) d

unchanged : (m : Manager) → length m.queue ≤ queue_size → m.queue ≡ take queue_size (m.queue ++ [])
unchanged m h = sym (rw (append-nil m.queue) (take-all queue_size m.queue h))

queued_if :
    (cfg asked : Bool) (x : Message) (m : Manager)
    → cfg ≡ asked
    → length m.queue ≤ queue_size
    → (if cfg then enqueue x m else m).queue
      ≡ take queue_size (m.queue ++ (if asked then x ∷ [] else []))
queued_if cfg true x m e h = rw e (enqueue-queue x m h)
queued_if cfg false x m e h = rw e (unchanged m h)

happen-queue :
    (cfg : Config) (e : Event) (m : Manager)
    → Decides cfg m
    → (happen e m).queue ≡ take queue_size (m.queue ++ wanted cfg e)
unfolding enqueue_cron_event enqueue_variation_event enqueue_set_event
happen-queue cfg (cron spec) m d = enqueue-queue _ m d.short
happen-queue cfg (variation device_id port oid detail) m d =
    queued_if m.on_variation cfg.on_variation _ m d.same_variation d.short
happen-queue cfg (set device_id port oid value_type value_text) m d =
    queued_if (wants_set m (set_oid oid))
      (all_empty cfg.on_set_oids || names (set_oid oid) cfg.on_set_oids) _ m
      (wants_set-names cfg m (set_oid oid) d.same_oids) d.short

happened-queue :
    (cfg : Config) (events : List Event) (m : Manager)
    → Decides cfg m
    → (happened events m).queue ≡ take queue_size (m.queue ++ all_wanted cfg events)
happened-queue cfg [] m d = unchanged m d.short
happened-queue cfg (e ∷ events) m d =
    let ih = happened-queue cfg events (happen e m) (happen-Decides cfg e m d) in
    ih
    ∙ rw (happen-queue cfg e m d) (
        take-take_append queue_size (m.queue ++ wanted cfg e) (all_wanted cfg events)
        ∙ ap (take queue_size) (append_assoc m.queue (wanted cfg e) (all_wanted cfg events)))

Step-Decides : (cfg : Config) {m n : Manager} → Step m n → Decides cfg m → Decides cfg n
Step-Decides cfg (event m e) d = happen-Decides cfg e m d
Step-Decides cfg (taken m message rest e) d = record {
  same_variation = d.same_variation;
  same_oids = d.same_oids;
  short =
      let counted : length m.queue ≡ suc (length rest) = rw e in omega (arith, d.short, counted);
}

Reach-Decides :
    (cfg : Config) {m n : Manager} → new_manager cfg ≡ some (some m) → Reach m n → Decides cfg n
Reach-Decides cfg {m} made here =
    rw (new_manager-fields cfg m made)
      (record { same_variation = refl; same_oids = refl; short = omega arith })
Reach-Decides cfg made (next reach step) = Step-Decides cfg step (Reach-Decides cfg made reach)

-- The queue of a new manager is empty. Whatever events have come to the manager and whenever its loop
-- has taken a message, the events that come next, until its loop takes another, leave the first 1024
-- messages of this list in the queue: what the queue held, and behind it the notifications that these
-- events ask for, in their order. An event of cron asks for one; a variation does if the configuration
-- says so; a SET does if the OID is listed in the configuration or no OIDs are listed, where white space
-- around an OID and a dot in front do not count.
pub happened-wanted :
    (cfg : Config) {m n : Manager} (events : List Event)
    → new_manager cfg ≡ some (some m)
    → Reach m n
    → (m.queue ≡ []) × ((happened events n).queue ≡ take 1024 (n.queue ++ all_wanted cfg events))
happened-wanted cfg {m} {n} events made reach = (
  ap (λ k. k.queue) (new_manager-fields cfg m made),
  happened-queue cfg events n (Reach-Decides cfg made reach),
)
