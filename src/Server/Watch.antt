-- ===== src/Server/Watch.antt =====
-- internal/server/register.go, watchAndRegister, and server.go, ListAndWatch: the loop that refreshes the
-- devices, tells kubelet of a change and registers the node.
pub mod Synced
pub mod Rounds
pub mod Streams
use ascend_device_plugin.Base.{
  ℕ, String, Bool, ◌==◌, List, [], Option, none, some, Outcome, returns, and_then, Result, ok, err,
  if◌then◌else◌,
}
use ascend_device_plugin.Manager.Driver.{DeviceInterface}
use ascend_device_plugin.Manager.State.{AscendManager, Device}
use ascend_device_plugin.Manager.Devices.{update_device, get_devices}
use ascend_device_plugin.Server.Plugin.{PluginServer, manager_of}
use ascend_device_plugin.Server.Publish.{device_fingerprint}
use ascend_device_plugin.Server.Register.{Cluster, NodeEffect, register_hami}

-- `told` are the devices that ListAndWatch sent to kubelet last.
pub record Watching : Type 0 where
  pub server : PluginServer
  pub manager : AscendManager
  pub told : List Device

-- How the select around `ps.healthCh <- 0` ends.
pub data Sent : Type 0 where
  accepted stopped timed_out : Sent

-- What the loop does next: return, or wait for so many seconds.
pub data Next : Type 0 where
  stops : Next
  again : ℕ → Next

-- ListAndWatch's first message, when kubelet connects.
unfoldable pub connect : Watching → Watching
unfolding get_devices
connect s = record s { told = get_devices s.manager }

-- An accepted send makes ListAndWatch send the devices, which only the next refresh changes.
unfoldable pub offer : Sent → String → Watching → Option Watching
unfolding get_devices
offer accepted fp s = some (record s {
  server = record s.server { last_published_devices = fp };
  told = get_devices s.manager;
})
offer stopped fp s = none
offer timed_out fp s = some s

unfoldable pub publish_change : Sent → Watching → Option Watching
publish_change sent s =
    let fp = device_fingerprint (manager_of s.manager) in
    if fp == s.server.last_published_devices then some s else offer sent fp s

abbrev pub wait : Result (Unit {0}) → Next
wait (ok t) = again 30
wait (err e) = again 5

abbrev pub Ticked : Type 0
Ticked = Next × List NodeEffect × Watching

unfoldable pub register_then_wait : Cluster → Watching → Outcome Ticked
register_then_wait cluster s =
    and_then (register_hami s.server (manager_of s.manager) cluster)
      λ (r, fx). returns (wait r, fx, s)

unfoldable pub publish_then_register : Cluster → Sent → Watching → Outcome Ticked
publish_then_register cluster sent s = elim (publish_change sent s) [
  | none ↦ returns (stops, [], s)
  | some s' ↦ register_then_wait cluster s'
]

-- One round of the loop, once the timer fired.
module _ {W : Type 0} (d : DeviceInterface W) (w : W) (cluster : Cluster) (sent : Sent) where
  unfoldable pub after_update : Watching → Result (Unit {0}) × AscendManager → Outcome Ticked
  after_update s (err e, am) = returns (again 5, [], record s { manager = am })
  after_update s (ok t, am) = publish_then_register cluster sent (record s { manager = am })

  unfoldable pub tick : Watching → Outcome Ticked
  unfolding after_update
  tick s = after_update s (update_device d w s.manager)
