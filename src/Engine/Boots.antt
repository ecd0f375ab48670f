-- ===== src/Engine/Boots.antt =====
-- internal/engine/simulator.go: the boots that agents with one engine identifier report.
use go_snmpsim.Prelude.{
  ℕ, zero, suc, ◌+◌, ◌-◌, ◌%◌, ◌^◌, ◌≡◌, ◌∙◌, refl, ap, Bool, true, false, ◌&&◌, Option, none, some,
  [], Bytes, is_empty, nat_eq, text_eq, lookup, lookup-put, lookup-nil, ltb, leb, ◌==◌,
  if◌then◌else◌, arith, Bool-cases, inl, inr,
}
use go_snmpsim.Security.{Config, States}
use go_snmpsim.Security.Hex.{hex_encode}
use go_snmpsim.Security.Boots.{after, ensure_boots-after}
use go_snmpsim.Engine.{
  StartedAgent, Simulator, Agents, boots_of, start_one, start_loop, create_virtual_agents,
  new_virtual_agent, with_engine,
}
use go_snmpsim.Engine.Ports.{device_at, create_virtual_agents-device}

abbrev boots_in : Option StartedAgent → Option ℕ
boots_in none = none
boots_in (some agent) = some agent.v3_engine_boots

-- The boots that the agent of a port reports.
abbrev pub boots_at : Agents → ℕ → Option ℕ
boots_at agents port = boots_in (lookup port agents)

abbrev engine_in : Option StartedAgent → Option Bytes
engine_in none = none
engine_in (some agent) = some agent.v3_config.engine_id

-- The engine identifier of the agent of a port.
abbrev pub engine_at : Agents → ℕ → Option Bytes
engine_at agents port = engine_in (lookup port agents)

-- `a`, where there is a device.
abbrev for_device : {A : Type 0} → A → Option ℕ → Option A
for_device a none = none
for_device a (some device_id) = some a

abbrev nth_start : ℕ → Option ℕ → Option ℕ
nth_start n none = none
nth_start n (some device_id) = some (suc (n + device_id) % 2 ^ 32)

module _ (generate : Bytes → Bytes) (config : Config) (n : ℕ) (enabled : config.enabled ≡ true)
    (named : is_empty config.engine_id ≡ false) where
  -- The boots of an agent are those of its number, and the engine started as often as there are agents.
  Counted : ℕ → Agents × States → Type 0
  Counted device_id made =
      ((p : ℕ) → boots_at made.0 p ≡ nth_start n (device_at made.0 p))
      × (lookup (hex_encode config.engine_id) made.1 ≡ after config.engine_id (n + device_id))

  start_one-Counted :
      (port device_id : ℕ) (made : Agents × States)
      → Counted device_id made
      → Counted (device_id + 1) (start_one generate config port device_id made)
  unfolding Counted start_one new_virtual_agent with_engine boots_of
  start_one-Counted port device_id made (counted, state) =
      let step = ensure_boots-after config.engine_id (n + device_id) made.1 state in
      let more : suc (n + device_id) ≡ n + (device_id + 1) = omega arith in
      (
        (λ p. elim (Bool-cases (port == p)) [
          | inl e ↦ rw (lookup-put, e, named, enabled) (ap some step.0)
          | inr e ↦ rw (lookup-put, e) (counted p)
        ]),
        rw (start_one, named, enabled, ← more) step.1,
      )

  start_loop-boots :
      (num left port device_id : ℕ) (made : Agents × States) (p : ℕ)
      → Counted device_id made
      → boots_at (start_loop generate config num left port device_id made).0 p
        ≡ nth_start n (device_at (start_loop generate config num left port device_id made).0 p)
  unfolding start_loop Counted
  start_loop-boots num zero port device_id made p counted = counted.0 p
  start_loop-boots num (suc left) port device_id made p counted =
      elim (Bool-cases (ltb device_id num)) [
        | inr e ↦ rw (start_loop, e) (counted.0 p)
        | inl e ↦
            rw (start_loop, e)
              (start_loop-boots num left (port + 1) (device_id + 1)
                (start_one generate config port device_id made) p
                (start_one-Counted port device_id made counted))
      ]

nth_start-placed :
    (n k : ℕ) (b : Bool)
    → nth_start n (if b then some k else none) ≡ (if b then some (suc (n + k) % 2 ^ 32) else none)
nth_start-placed n k true = refl
nth_start-placed n k false = refl

module _ (generate : Bytes → Bytes) (config : Config) (enabled : config.enabled ≡ true)
    (named : is_empty config.engine_id ≡ false) where
  Named : Agents × States → Type 0
  Named made = (p : ℕ) → engine_at made.0 p ≡ for_device config.engine_id (device_at made.0 p)

  start_one-Named :
      (port device_id : ℕ) (made : Agents × States)
      → Named made
      → Named (start_one generate config port device_id made)
  unfolding Named start_one with_engine
  start_one-Named port device_id made h = λ p. elim (Bool-cases (port == p)) [
    | inl e ↦ elim (Bool-cases (is_empty config.username)) [
      | inl u ↦ rw (lookup-put, e, named, enabled, u, named) refl
      | inr u ↦ rw (lookup-put, e, named, enabled, u, named) refl
    ]
    | inr e ↦ rw (lookup-put, e) (h p)
  ]

  start_loop-Named :
      (num left port device_id : ℕ) (made : Agents × States)
      → Named made
      → Named (start_loop generate config num left port device_id made)
  unfolding start_loop
  start_loop-Named num zero port device_id made h = h
  start_loop-Named num (suc left) port device_id made h = elim (Bool-cases (ltb device_id num)) [
    | inr e ↦ rw (start_loop, e) h
    | inl e ↦
        rw (start_loop, e)
          (start_loop-Named num left (port + 1) (device_id + 1)
            (start_one generate config port device_id made) (start_one-Named port device_id made h))
  ]

for_device-placed :
    {A : Type 0} (a : A) (k : ℕ) (b : Bool)
    → for_device a (if b then some k else none) ≡ (if b then some a else none)
for_device-placed a k true = refl
for_device-placed a k false = refl

-- With version 3 enabled and an engine identifier configured, the agent of every port that has one has
-- that identifier, but its boots count one more than those of the port before, from the number of
-- earlier starts on.
pub create_virtual_agents-boots :
    (generate : Bytes → Bytes) (sim : Simulator) (states : States) (n p : ℕ)
    → sim.v3_config.enabled ≡ true
    → is_empty sim.v3_config.engine_id ≡ false
    → lookup (hex_encode sim.v3_config.engine_id) states ≡ after sim.v3_config.engine_id n
    → let agents = (create_virtual_agents generate sim states).0 in
      let within =
        leb sim.port_start p && ltb p sim.port_end && ltb (p - sim.port_start) sim.num_devices in
      (engine_at agents p ≡ (if within then some sim.v3_config.engine_id else none))
      × (boots_at agents p
          ≡ (if within then some (suc (n + (p - sim.port_start)) % 2 ^ 32) else none))
unfolding create_virtual_agents Counted Named
create_virtual_agents-boots generate sim states n p enabled named state =
    let none_yet : n ≡ n + 0 = omega arith in
    let within =
      leb sim.port_start p && ltb p sim.port_end && ltb (p - sim.port_start) sim.num_devices in
    (
      start_loop-Named generate sim.v3_config enabled named sim.num_devices
            (sim.port_end - sim.port_start) sim.port_start 0 ([], states)
            (λ q. rw (lookup-nil q) refl) p
          ∙ (ap (for_device sim.v3_config.engine_id)
                (create_virtual_agents-device generate sim states p)
              ∙ for_device-placed sim.v3_config.engine_id (p - sim.port_start) within),
      start_loop-boots generate sim.v3_config n enabled named sim.num_devices
            (sim.port_end - sim.port_start) sim.port_start 0 ([], states) p
            ((λ q. rw (lookup-nil q) refl), (rw (← none_yet) state))
          ∙ (ap (nth_start n) (create_virtual_agents-device generate sim states p)
              ∙ nth_start-placed n (p - sim.port_start) within),
    )
