-- ===== src/Server/Allocate/Pending.antt =====
-- internal/server/allocate.go, popNextContainerDevices: the containers of a pod that still wait for their
-- devices. A PodSingleDevice is a list with the devices of each container, empty once they are handed out.
pub mod Queue
use ascend_device_plugin.Base.{
  ℕ, zero, suc, ◌+◌, ◌-◌, ◌<◌, String, ◌≡◌, refl, ◌⊎◌, inl, inr, List, [], ◌∷◌, Option, none, some,
  length, get_elem?, ltb, arith, if◌then◌else◌,
}
use ascend_device_plugin.Server.Plugin.{Pod, Container}

abbrev pub name_of : Option Container → String
name_of none = ""
name_of (some c) = c.name

-- The init containers come first; past the last container the name is "".
unfoldable pub ctr_name_at : Pod → ℕ → String
ctr_name_at pod i =
    let init_count = length pod.init_containers in
    if ltb i init_count
    then name_of (get_elem? pod.init_containers i)
    else name_of (get_elem? pod.containers (i - init_count))

module _ {D : Type 0} where
  -- The entry passed over stays in front.
  abbrev pub behind :
      List D → Option (List D × String × List (List D)) → Option (List D × String × List (List D))
  behind ctr_devs none = none
  behind ctr_devs (some (devs, name, rest)) = some (devs, name, ctr_devs ∷ rest)

  -- The loop from index `i` on; `none` is "no pending device allocation found".
  unfoldable pub pop_from : Pod → ℕ → List (List D) → Option (List D × String × List (List D))
  pop_from pod i [] = none
  pop_from pod i ([] ∷ rest) = behind [] (pop_from pod (suc i) rest)
  pop_from pod i ((dev ∷ devs) ∷ rest) = some (dev ∷ devs, ctr_name_at pod i, [] ∷ rest)

  unfoldable pub pop_next_container_devices :
      Pod → List (List D) → Option (List D × String × List (List D))
  unfolding pop_from
  pop_next_container_devices pod pod_single_dev = pop_from pod 0 pod_single_dev
