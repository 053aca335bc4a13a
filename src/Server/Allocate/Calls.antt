-- ===== src/Server/Allocate/Calls.antt =====
-- internal/server/server.go, Allocate: "kubelet may call Allocate multiple times for the same pod, each time
-- with a subset of containers."
pub mod Same
pub mod Trailing
pub mod Split
pub mod Append
pub mod Agreement
use Prim.Native.String.{◌++◌}
use mathlib.Core.List
use ascend_device_plugin.Base.{
  ℕ, zero, suc, ℤ, String, Bool, ◌≡◌, ◌≢◌, List, [], ◌∷◌, Option, none, some, Result, ok, err,
  ◌>>=◌, sym, ◌∙◌, arith,
}
use ascend_device_plugin.Base.Dict.{Dict, lookup, insert, lookup-insert_self}
use ascend_device_plugin.Base.Text.{formats-ne}
use ascend_device_plugin.Server.Plugin.{
  Manager, Pod, PluginServer, vnpu_mode_annotation, new_plugin_server,
}
use ascend_device_plugin.Server.Allocate.Response.{
  ContainerAllocateResponse, Effect, remove_all, mkdir_all, chmod, patch_pod_annotations,
  pod_allocation_try_success, pod_allocation_failed, Hami, Host,
}
use ascend_device_plugin.Server.Allocate.Handler.{Request, found, allocate}

-- The pod that a call reported as served, with the annotation that it wrote.
unfoldable pub reported : List Effect → Option Pod
reported [] = none
reported (remove_all path ∷ fx) = reported fx
reported (mkdir_all path ∷ fx) = reported fx
reported (chmod path ∷ fx) = reported fx
reported (patch_pod_annotations pod annos ∷ fx) = reported fx
reported (pod_allocation_try_success node word lock pod ∷ fx) = some pod
reported (pod_allocation_failed node pod lock ∷ fx) = reported fx

abbrev pub Answer : Type 0
Answer = Result (List ContainerAllocateResponse)

unfoldable pub and_later : (Pod → Answer) → Answer × List Effect → Answer
and_later later (err e, fx) = err e
and_later later (ok resps, fx) = elim (reported fx) [
  | none ↦ ok resps
  | some pod ↦ later pod >>= λ more. ok (List.◌++◌ resps more)
]

abbrev pub flatten : List (List Request) → List Request
flatten [] = []
flatten (reqs ∷ calls) = List.◌++◌ reqs (flatten calls)

abbrev pub empties : {D : Type 0} → ℕ → List (List D)
empties zero = []
empties (suc k) = [] ∷ empties k

-- What NewPluginServer sets up: the keys differ, and HAMi knows the one with the devices.
pub record IsKeyed (ps : PluginServer) (host : Host) : Type 0 where
  pub alloc : ps.to_alloc_device_anno ≢ ps.alloc_anno
  pub mode : ps.to_alloc_device_anno ≢ vnpu_mode_annotation
  pub requested : lookup ps.common_word host.in_request_devices ≡ some ps.to_alloc_device_anno

-- HAMi's codec: where the annotations of a pod can be decoded, a list that is written under the key of a
-- word is read back for it, up to containers without devices at its end.
pub record IsCodec {D : Type 0} (hami : Hami D) (host : Host) : Type 0 where
  pub read :
      (annos : Dict String) (devices : Dict (List (List D))) (word key : String)
      (psd : List (List D))
      → hami.decode_pod_devices host.in_request_devices annos ≡ ok devices
      → lookup word host.in_request_devices ≡ some key
      → (devices' : Dict (List (List D))) × (k : ℕ) × (hami.decode_pod_devices
            host.in_request_devices
            (insert key (hami.encode_pod_single_device psd) annos)
          ≡ ok devices')
        × (lookup word devices' ≡ some (List.◌++◌ psd (empties k)))

module _ {D : Type 0} (hami : Hami D) (ps : PluginServer) (mgr : Manager) (host : Host) where
  -- The calls for one pod, one after the other, until one fails. Each finds the pod as the call before
  -- reported it.
  unfoldable pub allocate_calls : Pod → List (List Request) → Answer
  unfolding and_later
  allocate_calls pod [] = ok []
  allocate_calls pod (reqs ∷ calls) =
      and_later (λ later. allocate_calls later calls) (allocate hami ps mgr host (found pod) reqs)

alloc_apart : (word : String) → "hami.io/" ++ word ++ "-devices-to-allocate" ≢ "huawei.com/" ++ word
alloc_apart word =
    formats-ne "h" "a" "u" "mi.io/" "awei.com/" (word ++ "-devices-to-allocate") word (omega arith)

mode_apart : (word : String) → "hami.io/" ++ word ++ "-devices-to-allocate" ≢ vnpu_mode_annotation
mode_apart word =
    formats-ne "h" "a" "u" "mi.io/" "awei.com/" (word ++ "-devices-to-allocate") "vnpu-mode"
      (omega arith)

pub new_plugin_server-IsKeyed :
    (join : String → String) (mgr : Manager) (node_name : String) (interval : ℤ) (periodic : Bool)
    (in_request_devices : Dict String) (host : Host)
    → (let made = new_plugin_server join mgr node_name interval periodic in_request_devices in
        host.in_request_devices ≡ made.1 → IsKeyed made.0 host)
unfolding new_plugin_server
new_plugin_server-IsKeyed join mgr node_name interval periodic in_request_devices host e = record {
  alloc = alloc_apart mgr.common_word;
  mode = mode_apart mgr.common_word;
  requested = rw e (lookup-insert_self mgr.common_word _ in_request_devices);
}
