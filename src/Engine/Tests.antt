-- ===== src/Engine/Tests.antt =====
-- A simulator with three devices on four ports.
use go_snmpsim.Prelude.{◌≡◌, refl, true, none, some, [], Bytes, codes, lookup-nil, text_eq, nat_eq}
use go_snmpsim.Security.{Config}
use go_snmpsim.Security.Hex.{hex_encode}
use go_snmpsim.Engine.{Simulator, create_virtual_agents}
use go_snmpsim.Engine.Ports.{device_at, create_virtual_agents-device}
use go_snmpsim.Engine.Boots.{engine_at, boots_at, create_virtual_agents-boots}

abbrev config : Config
config = record {
  enabled = true;
  engine_id = codes "e";
  username = codes "admin";
  auth = [];
  auth_key = [];
  priv = [];
  priv_key = [];
}

abbrev sim : Simulator
sim = record { port_start = 20000; port_end = 20004; num_devices = 3; v3_config = config }

abbrev generate : Bytes → Bytes
generate seed = seed

create_virtual_agents-device_example :
    device_at (create_virtual_agents generate sim []).0 20002 ≡ some 2
create_virtual_agents-device_example = create_virtual_agents-device generate sim [] 20002

create_virtual_agents-boots_example :
    (engine_at (create_virtual_agents generate sim []).0 20002 ≡ some (codes "e"))
    × (boots_at (create_virtual_agents generate sim []).0 20002 ≡ some 3)
create_virtual_agents-boots_example =
    create_virtual_agents-boots generate sim [] 0 20002 refl refl
      (lookup-nil (hex_encode (codes "e")))

-- The devices end before the ports do.
no_fourth : device_at (create_virtual_agents generate sim []).0 20003 ≡ none
no_fourth = create_virtual_agents-device generate sim [] 20003
