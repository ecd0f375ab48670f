-- ===== src/Traps/Tests.antt =====
-- A concrete manager, targets and a network.
use go_snmpsim.Prelude.{
  ◌≡◌, refl, true, false, not, none, some, List, [], ◌∷◌, ◌++◌, take, Bytes, codes, bytes_eq,
  trim_space,
}
use go_snmpsim.Strconv.{atoi, cut, cut_last}
use go_snmpsim.Traps.{Config, Manager, manager_of, new_manager, normalize, enqueue_cron_event}
use go_snmpsim.Traps.Targets.{
  normalize_target, normalize_targets, parse_target, split_host_port, join_host_port,
}
use go_snmpsim.Traps.Queue.{here, next, event, happened-wanted}
use go_snmpsim.Traps.Wanted.{cron, variation, set, happened, all_wanted}
use go_snmpsim.Traps.Send.{Trap, Network, v2_builder, build, deliver, send}

abbrev config : Config
config = record {
  targets = codes "nms:162" ∷ [];
  version = [];
  community = [];
  v3_user = [];
  v3_auth = [];
  v3_auth_key = [];
  v3_priv = [];
  v3_priv_key = [];
  cron_specs = [];
  on_variation = true;
  on_set_oids = codes ".1.3.5" ∷ [];
  inform = false;
  timeout = 0;
  retries = 0;
}

abbrev manager : Manager
manager = record { on_variation = true; on_set_oids = codes "1.3.5" ∷ []; queue = [] }

made : new_manager config ≡ some (some manager)
unfolding new_manager manager_of normalize split_host_port join_host_port atoi cut_last trim_space
    normalize_targets normalize_target
made = refl

happened-wanted_example :
    let before = enqueue_cron_event (codes "* * * * *") manager in
    let events =
      variation 1 20000 (codes ".1.3.1") (codes "drop") ∷ set 1 20000 (codes "1.3.5") [] [] ∷ [] in
    (manager.queue ≡ [])
    × ((happened events before).queue ≡ take 1024 (before.queue ++ all_wanted config events))
happened-wanted_example =
    happened-wanted config
      (variation 1 20000 (codes ".1.3.1") (codes "drop") ∷ set 1 20000 (codes "1.3.5") [] [] ∷ [])
      made (next here (event manager (cron (codes "* * * * *"))))

accepted : normalize_target (codes "[::1]:162") ≡ some (codes "[::1]:162")
unfolding normalize_target split_host_port join_host_port atoi cut cut_last
accepted = refl

-- Port 0 passes `Normalize`, and is refused when a trap is sent.
port_zero : normalize_target (codes "nms:0") ≡ some (codes "nms:0")
unfolding normalize_target split_host_port join_host_port atoi cut_last
port_zero = refl

no_client : parse_target (codes "nms:0") ≡ none
unfolding parse_target split_host_port atoi cut_last trim_space
no_client = refl

-- A network that keeps the hosts that were reached; `b` cannot be connected to.
abbrev wires : Network (List Bytes)
wires = record {
  connect = λ client w. (not (bytes_eq client.host (codes "b")), w);
  send_trap = λ client trap w. (true, client.host ∷ w);
  close = λ client w. w;
}

abbrev trap : Trap
trap = record { variables = []; is_inform = false }

abbrev three : List Bytes
three = codes "a:162" ∷ codes "b:162" ∷ codes "c:162" ∷ []

-- The third target is not reached, since the second fails.
third_is_skipped :
    send wires (v2_builder (codes "public") 2 0) trap three [] ≡ (false, codes "a" ∷ [])
unfolding send deliver build parse_target split_host_port atoi cut_last trim_space
third_is_skipped = refl
