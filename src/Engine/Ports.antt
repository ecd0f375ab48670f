-- ===== src/Engine/Ports.antt =====
-- internal/engine/simulator.go: the devices on the ports, and the boots that they report.
use go_snmpsim.Prelude.{
  ℕ, zero, suc, ◌+◌, ◌-◌, ◌≡◌, ◌∙◌, refl, ap, true, false, ◌&&◌, Option, none, some, [], Bytes,
  nat_eq, lookup, lookup-put, lookup-nil, ltb, leb, ◌==◌, if◌then◌else◌, arith, Bool-cases, inl,
  inr,
}
use go_snmpsim.Security.{Config, States}
use go_snmpsim.Engine.{
  StartedAgent, Simulator, Agents, start_one, start_loop, create_virtual_agents, new_virtual_agent,
}

abbrev device_of : Option StartedAgent → Option ℕ
device_of none = none
device_of (some agent) = some agent.device_id

-- The number of the device on a port.
abbrev pub device_at : Agents → ℕ → Option ℕ
device_at agents port = device_of (lookup port agents)

-- What a loop puts on a port, where `old` stood there: from `port` on `left` devices, up to `num`.
abbrev pub placed : ℕ → ℕ → ℕ → ℕ → Option ℕ → ℕ → Option ℕ
placed num left port device_id old p =
    if leb port p && ltb p (port + left) && ltb (p - port + device_id) num
    then some (p - port + device_id)
    else old

placed-none :
    (num left port device_id : ℕ) (old : Option ℕ) (p : ℕ)
    → ltb device_id num ≡ false
    → old ≡ placed num left port device_id old p
placed-none num left port device_id old p e = ground arith

placed-next :
    (num left port device_id : ℕ) (old : Option ℕ) (p : ℕ)
    → ltb device_id num ≡ true
    → placed num left (port + 1) (device_id + 1) (if port == p then some device_id else old) p
      ≡ placed num (suc left) port device_id old p
placed-next num left port device_id old p e = elim (Bool-cases (port == p)) [
  | inl f ↦ let exact : p - port + device_id ≡ device_id = ground arith in ground arith
  | inr f ↦ ground (arith)
]

start_one-device :
    (generate : Bytes → Bytes) (config : Config) (port device_id : ℕ) (agents : Agents)
    (states : States) (p : ℕ)
    → device_at (start_one generate config port device_id (agents, states)).0 p
      ≡ (if port == p then some device_id else device_at agents p)
unfolding start_one new_virtual_agent
start_one-device generate config port device_id agents states p = elim (Bool-cases (port == p)) [
  | inl e ↦ rw (lookup-put, e) refl
  | inr e ↦ rw (lookup-put, e) refl
]

start_loop-device :
    (generate : Bytes → Bytes) (config : Config) (num left port device_id : ℕ)
    (made : Agents × States) (p : ℕ)
    → device_at (start_loop generate config num left port device_id made).0 p
      ≡ placed num left port device_id (device_at made.0 p) p
unfolding start_loop
start_loop-device generate config num zero port device_id made p = ground arith
start_loop-device generate config num (suc left) port device_id made p =
    elim (Bool-cases (ltb device_id num)) [
      | inr e ↦
          rw (start_loop, e) (placed-none num (suc left) port device_id (device_at made.0 p) p e)
      | inl e ↦
          let one = start_one generate config port device_id made in
          let here = start_one-device generate config port device_id made.0 made.1 p in
          rw (start_loop, e)
            (start_loop-device generate config num left (port + 1) (device_id + 1) one p
              ∙ (ap (λ old. placed num left (port + 1) (device_id + 1) old p) here
                  ∙ placed-next num left port device_id (device_at made.0 p) p e))
    ]

-- Each port from `port_start` on has one agent, with the numbers of the devices in order from 0, until
-- there are as many agents as devices, or up to the port before `port_end`. No other port has an agent,
-- the port `port_end` included; devices for which no port is left have no agent.
pub create_virtual_agents-device :
    (generate : Bytes → Bytes) (sim : Simulator) (states : States) (p : ℕ)
    → device_at (create_virtual_agents generate sim states).0 p ≡ (
        if leb sim.port_start p && ltb p sim.port_end && ltb (p - sim.port_start) sim.num_devices
        then some (p - sim.port_start)
        else none)
unfolding create_virtual_agents
create_virtual_agents-device generate sim states p =
    start_loop-device generate sim.v3_config sim.num_devices (sim.port_end - sim.port_start)
      sim.port_start 0 ([], states) p
    ∙ rw (lookup-nil p) (ground arith)
