-- ===== src/Engine.antt =====
-- internal/engine/simulator.go: which agents a simulator starts with. Ports and counts are not negative.
-- The files, the listeners, the hooks of the agents and what all agents share are left out; an error is
-- `none`.
pub mod Ports
pub mod Boots
pub mod Tests
use go_snmpsim.Prelude.{
  ℕ, zero, suc, ◌+◌, ◌-◌, Bool, true, false, not, ◌&&◌, ◌||◌, Option, none, some, List, [], ◌∷◌,
  ◌++◌, Bytes, codes, is_empty, Map, nat_eq, put, ltb, ◌==◌, if◌then◌else◌,
}
use go_snmpsim.Strconv.{print_int}
use go_snmpsim.Security.{Config, States, ensure_boots, validate}

-- The part of a Simulator that its agents are made by.
pub record Simulator : Type 0 where
  pub port_start : ℕ
  pub port_end : ℕ
  pub num_devices : ℕ
  pub v3_config : Config

-- The part of a VirtualAgent that is its own.
pub record StartedAgent : Type 0 where
  pub device_id : ℕ
  pub port : ℕ
  pub sys_name : Bytes
  pub v3_config : Config
  pub v3_engine_boots : ℕ

-- `fmt.Sprintf("device-%d", deviceID)`
device_seed : ℕ → Bytes
unfolding print_int
device_seed device_id = codes "device-" ++ print_int device_id

abbrev Agents : Type 0
Agents = Map ℕ StartedAgent

-- `generate` is GenerateEngineID, a hash of its seed.
module _ (generate : Bytes → Bytes) where
  with_user : Config → Config
  with_user c =
      if c.enabled && is_empty c.username then record c { username = codes "simuser" } else c

  with_engine : Bytes → Config → Config
  with_engine seed c =
      if c.enabled && is_empty c.engine_id then record c { engine_id = generate seed } else c

  -- `NewVirtualAgent`
  unfoldable pub new_virtual_agent : ℕ → ℕ → Bytes → Config → ℕ → StartedAgent
  unfolding with_user with_engine device_seed
  new_virtual_agent device_id port sys_name config boots = record {
    device_id = device_id;
    port = port;
    sys_name = sys_name;
    v3_config = with_engine (device_seed device_id) (with_user config);
    v3_engine_boots = boots;
  }

  -- The boots of an agent, which count only with version 3.
  boots_of : Config → States → ℕ × States
  unfolding ensure_boots
  boots_of config states =
      if config.enabled then ensure_boots config.engine_id states else (1, states)

  -- One round of the loop: the agent of a port.
  start_one : Config → ℕ → ℕ → Agents × States → Agents × States
  unfolding new_virtual_agent with_engine device_seed boots_of print_int
  start_one config port device_id made =
      let cfg = with_engine (device_seed device_id ++ codes "-port-" ++ print_int port) config in
      let counted = boots_of cfg made.1 in
      let name = codes "Device-" ++ print_int device_id in
      (put port (new_virtual_agent device_id port name cfg counted.0) made.0, counted.1)

  -- The loop over the ports, of which `left` are to come.
  pub start_loop : Config → ℕ → ℕ → ℕ → ℕ → Agents × States → Agents × States
  unfolding start_one
  start_loop config num_devices zero port device_id made = made
  start_loop config num_devices (suc left) port device_id made =
      let rest =
        start_loop config num_devices left (port + 1) (device_id + 1)
          (start_one config port device_id made) in
      if ltb device_id num_devices then rest else made

  unfoldable pub create_virtual_agents : Simulator → States → Agents × States
  unfolding start_loop
  create_virtual_agents sim states =
      start_loop sim.v3_config sim.num_devices (sim.port_end - sim.port_start) sim.port_start 0
        ([], states)

  -- `NewSimulator`: its checks, and its agents.
  unfoldable pub new_simulator : Simulator → States → Option (Agents × States)
  unfolding create_virtual_agents validate
  new_simulator sim states =
      if not (ltb sim.port_start sim.port_end)
      then none
      else if sim.num_devices == 0
      then none
      else if sim.v3_config.enabled && not (validate sim.v3_config)
      then none
      else some (create_virtual_agents sim states)
