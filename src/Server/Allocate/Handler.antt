-- ===== src/Server/Allocate/Handler.antt =====
-- internal/server/server.go, Allocate, with the functions of allocate.go that read and write annotations.
pub mod Serving
pub mod Outcomes
use Prim.Native.String.{◌++◌}
use mathlib.Core.List
use ascend_device_plugin.Base.{
  ℕ, pos, String, Bool, true, false, ◌==◌, List, [], ◌∷◌, Option, none, some, Result, ok, err,
  Error, message, wrap, or_wrap, or_fail, ◌>>=◌, length, eqb, if◌then◌else◌,
}
use ascend_device_plugin.Base.Dict.{Dict, lookup, insert}
use ascend_device_plugin.Base.Text.{itoa}
use ascend_device_plugin.Server.Plugin.{Manager, Pod, PluginServer, RuntimeInfo, node_lock_ascend}
use ascend_device_plugin.Server.Allocate.Response.{
  ContainerAllocateResponse, Effect, patch_pod_annotations, pod_allocation_try_success,
  pod_allocation_failed, Hami, Host, build_container_allocate_response,
}
use ascend_device_plugin.Server.Allocate.Pending.{pop_next_container_devices}

-- The DevicesIds of a ContainerAllocateRequest.
abbrev pub Request : Type 0
Request = List String

-- util.GetPendingPod: the pod, or an error, with which a pod may come too.
pub data PendingPod : Type 0 where
  found : Pod → PendingPod
  failed : Option Pod → Error → PendingPod

-- `lookup[info.UUID] = info`: a later entry replaces an earlier one.
unfoldable pub index_infos : Dict RuntimeInfo → List RuntimeInfo → Dict RuntimeInfo
index_infos m [] = m
index_infos m (info ∷ infos) =
    index_infos (if info.uuid == "" then m else insert info.uuid info m) infos

module _ {D : Type 0} (hami : Hami D) (ps : PluginServer) (mgr : Manager) (host : Host) where
  unfoldable pub decode_device_annotations : Pod → Result (List (List D))
  decode_device_annotations pod = do
    pdevices ← hami.decode_pod_devices host.in_request_devices pod.annotations
    or_fail (message ("device " ++ ps.common_word ++ " not found in pod annotations"))
        (lookup ps.common_word pdevices)

  unfoldable pub build_runtime_info_lookup : Pod → Result (Dict RuntimeInfo)
  build_runtime_info_lookup pod = do
    anno ←
        or_fail (message ("annotation " ++ ps.alloc_anno ++ " not set"))
          (lookup ps.alloc_anno pod.annotations)
    rt_info ←
        or_wrap ("annotation " ++ ps.alloc_anno ++ " value " ++ anno ++ " invalid")
          (hami.unmarshal_runtime_infos anno)
    ok (index_infos [] rt_info)

  abbrev pub erased_annotation : List (List D) → Dict String
  erased_annotation psd = (ps.to_alloc_device_anno, hami.encode_pod_single_device psd) ∷ []

  -- On success pod.Annotations is updated in place.
  abbrev pub updated : Pod → List (List D) → Pod
  updated pod psd = record pod {
    annotations =
        insert ps.to_alloc_device_anno (hami.encode_pod_single_device psd) pod.annotations;
  }

  unfoldable pub patch_erased_annotation : Pod → List (List D) → Result Pod
  patch_erased_annotation pod psd = elim (host.patches pod (erased_annotation psd)) [
    | some e ↦ err e
    | none ↦ ok (updated pod psd)
  ]

  abbrev pub Served : Type 0
  Served = List ContainerAllocateResponse × List (List D)

  -- A response in front of those of the later requests; the effects happened in any case.
  abbrev pub put_first :
      ContainerAllocateResponse × List Effect
      → Result Served × List Effect
      → Result Served × List Effect
  put_first (resp, fx) (ok (resps, psd), more) = (ok (resp ∷ resps, psd), List.◌++◌ fx more)
  put_first (resp, fx) (err e, more) = (err e, List.◌++◌ fx more)

  -- One turn of the loop over the requests, once the container's devices are popped.
  unfoldable pub serve_container :
      Pod
      → Dict RuntimeInfo
      → Request
      → List D
      → String
      → List (List D)
      → Result ((ContainerAllocateResponse × List Effect) × List (List D))
  serve_container pod infos req devs ctr_name rest =
      let mismatch =
        "device number not matched: annotation has "
        ++ itoa (pos (length devs))
        ++ ", request has "
        ++ itoa (pos (length req)) in
      if eqb (length devs) (length req)
      then or_wrap "build container allocate response"
          (build_container_allocate_response hami ps mgr host pod ctr_name devs infos)
        >>= (λ built. ok (built, rest))
      else err (message mismatch)

  unfoldable pub serve_request :
      Pod
      → Dict RuntimeInfo
      → Request
      → List (List D)
      → Result ((ContainerAllocateResponse × List Effect) × List (List D))
  serve_request pod infos req psd = do
    (devs, ctr_name, rest) ←
        or_fail (wrap "get next container devices" (message "no pending device allocation found"))
          (pop_next_container_devices pod psd)
    serve_container pod infos req devs ctr_name rest

  unfoldable pub serve_requests :
      Pod → Dict RuntimeInfo → List Request → List (List D) → Result Served × List Effect
  serve_requests pod infos [] psd = (ok ([], psd), [])
  serve_requests pod infos (req ∷ reqs) psd = elim (serve_request pod infos req psd) [
    | err e ↦ (err e, [])
    | ok (built, rest) ↦ put_first built (serve_requests pod infos reqs rest)
  ]

  -- From the requests' responses on: the patch, and the deferred call.
  unfoldable pub finish :
      Pod → Result Served × List Effect → Result (List ContainerAllocateResponse) × List Effect
  finish pod (err e, fx) =
      (err e, List.◌++◌ fx (pod_allocation_failed ps.node_name pod node_lock_ascend ∷ []))
  finish pod (ok (resps, psd), fx) =
      let patch = patch_pod_annotations pod (erased_annotation psd) in
      elim (patch_erased_annotation pod psd) [
        | err e ↦ (
          err (wrap "erase allocated containers annotation" e),
          List.◌++◌ fx (patch ∷ pod_allocation_failed ps.node_name pod node_lock_ascend ∷ []),
        )
        | ok pod' ↦ (
          ok resps,
          List.◌++◌ fx (
              patch
              ∷ pod_allocation_try_success ps.node_name ps.common_word node_lock_ascend pod'
              ∷ []),
        )
      ]

  unfoldable pub prepare : Pod → Result (Dict RuntimeInfo × List (List D))
  prepare pod = do
    infos ← or_wrap "build runtimeInfo lookup" (build_runtime_info_lookup pod)
    psd ← or_wrap "decode device annotations" (decode_device_annotations pod)
    ok (infos, psd)

  unfoldable pub allocate_pod :
      Pod → List Request → Result (List ContainerAllocateResponse) × List Effect
  allocate_pod pod reqs = elim (prepare pod) [
    | err e ↦ finish pod (err e, [])
    | ok (infos, psd) ↦ finish pod (serve_requests pod infos reqs psd)
  ]

  unfoldable pub allocate :
      PendingPod → List Request → Result (List ContainerAllocateResponse) × List Effect
  unfolding allocate_pod
  allocate (found pod) reqs = allocate_pod pod reqs
  allocate (failed none e) reqs = (err (wrap "get pending pod error" e), [])
  allocate (failed (some pod) e) reqs = (
    err (wrap "get pending pod error" e),
    pod_allocation_failed ps.node_name pod node_lock_ascend ∷ [],
  )
