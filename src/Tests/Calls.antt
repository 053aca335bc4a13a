-- ===== src/Tests/Calls.antt =====
-- A codec that keeps what IsCodec asks of HAMi's, and two calls of Allocate for one pod.
use Prim.Native.Char.{code}
use mathlib.Core.List.{append-nil}
use ascend_device_plugin.Base.{
  pos, String, true, false, ◌≡◌, ◌↔◌, refl, sym, ap, ◌∙◌, inl, inr, List, [], ◌∷◌, ◌++◌, Option,
  none, some, ok, ◌==◌, eqb, if◌then◌else◌, Bool-cases,
}
use ascend_device_plugin.Base.Dict.{Dict, lookup, insert, lookup-insert_self}
use ascend_device_plugin.Server.Plugin.{Pod, PluginServer, new_plugin_server}
use ascend_device_plugin.Server.Allocate.Response.{
  ContainerAllocateResponse, Hami, Host, respond, nothing_gathered,
  build_container_allocate_response, gather, respond_to, note_info,
}
use ascend_device_plugin.Server.Allocate.Handler.{
  Request, found, allocate, prepare, build_runtime_info_lookup, decode_device_annotations, finish,
  serve_requests, serve_request, serve_container, index_infos, patch_erased_annotation,
}
use ascend_device_plugin.Server.Allocate.Pending.{ctr_name_at, pop_next_container_devices}
use ascend_device_plugin.Manager.Devices.{find_device}
use ascend_device_plugin.Server.Allocate.Calls.{IsCodec, allocate_calls, new_plugin_server-IsKeyed}
use ascend_device_plugin.Server.Allocate.Calls.Agreement.{allocate_calls-allocate}
use ascend_device_plugin.Tests.Servers
use ascend_device_plugin.Tests.Servers.{pod}

-- A device of HAMi's is the only one there is; a container is so many letters and a semicolon.
abbrev Die : Type 0
Die = Unit {0}

encode_container : List Die → String → String
encode_container [] rest = String.◌∷◌ ";" rest
encode_container (d ∷ ds) rest = String.◌∷◌ "d" (encode_container ds rest)

encode : List (List Die) → String
unfolding encode_container
encode [] = ""
encode (ds ∷ rest) = encode_container ds (encode rest)

push : List (List Die) → List (List Die)
push [] = (tt ∷ []) ∷ []
push (ds ∷ rest) = (tt ∷ ds) ∷ rest

decode : String → List (List Die)
unfolding push
decode String.[] = []
decode (String.◌∷◌ c s) = let rest = decode s in if eqb (code c) 59 then [] ∷ rest else push rest

decode-encode_container :
    (ds : List Die) (s : String) → decode (encode_container ds s) ≡ ds ∷ decode s
unfolding decode encode_container
decode-encode_container [] s = refl
decode-encode_container (d ∷ ds) s = ap push (decode-encode_container ds s)

decode-encode : (psd : List (List Die)) → decode (encode psd) ≡ psd
unfolding encode
decode-encode [] = unfold decode in refl
decode-encode (ds ∷ rest) =
    decode-encode_container ds (encode rest) ∙ ap (λ l. ds ∷ l) (decode-encode rest)

add_entry : String → Option String → Dict (List (List Die)) → Dict (List (List Die))
add_entry word none rest = rest
add_entry word (some text) rest = (word, decode text) ∷ rest

decode_all : Dict String → Dict String → Dict (List (List Die))
unfolding add_entry
decode_all [] annos = []
decode_all ((word, key) ∷ reqs) annos = add_entry word (lookup key annos) (decode_all reqs annos)

lookup-add_entry_other :
    (word at : String) (o : Option String) (rest : Dict (List (List Die)))
    → at == word ≡ false
    → lookup word (add_entry at o rest) ≡ lookup word rest
unfolding add_entry lookup
lookup-add_entry_other word at none rest h = refl
lookup-add_entry_other word at (some text) rest h = rw h refl

lookup-add_entry_self :
    (word at text : String) (rest : Dict (List (List Die)))
    → at == word ≡ true
    → lookup word (add_entry at (some text) rest) ≡ some (decode text)
unfolding add_entry lookup
lookup-add_entry_self word at text rest h = rw h refl

ok_key : {a b : String} → some a ≡ some b → a ≡ b
ok_key h = cc

lookup-decode_all :
    (word key text : String) (reqs annos : Dict String)
    → lookup word reqs ≡ some key
    → lookup word (decode_all reqs (insert key text annos)) ≡ some (decode text)
unfolding lookup decode_all
lookup-decode_all word key text [] annos h = absurd (cc)
lookup-decode_all word key text ((at, k) ∷ reqs) annos h = elim (Bool-cases (at == word)) [
  | inl here ↦
      let found_there : lookup k (insert key text annos) ≡ some text =
        ap (λ x. lookup x (insert key text annos)) (ok_key (rw here at h))
        ∙ lookup-insert_self key text annos in
      ap (λ o. lookup word (add_entry at o (decode_all reqs (insert key text annos)))) found_there
      ∙ lookup-add_entry_self word at text (decode_all reqs (insert key text annos)) here
  | inr there ↦
      lookup-add_entry_other word at (lookup k (insert key text annos))
        (decode_all reqs (insert key text annos)) there
      ∙ lookup-decode_all word key text reqs annos (rw there at h)
]

abbrev codec : Hami Die
codec = record {
  uuid = λ d. "die-0";
  decode_pod_devices = λ reqs annos. ok (decode_all reqs annos);
  encode_pod_single_device = encode;
  unmarshal_runtime_infos = λ s. ok [];
}

abbrev made : PluginServer × Dict String
made = new_plugin_server (λ s. s) Servers.mgr "node-1" (pos 60) true []

abbrev host : Host
host = record Servers.host { in_request_devices = made.1 }

abbrev ps : PluginServer
ps = made.0

codec-IsCodec : IsCodec codec host
codec-IsCodec = record {
  read = λ annos devices word key psd decoded known. (
    decode_all made.1 (insert key (encode psd) annos),
    0,
    refl,
    lookup-decode_all word key (encode psd) made.1 annos known
        ∙ ap some (decode-encode psd ∙ sym (append-nil psd)),
  );
}

-- Two of the pod's containers wait.
abbrev pending_pod : Pod
pending_pod = record pod {
  annotations =
      ("huawei.com/Ascend310P", "[]") ∷ ("hami.io/Ascend310P-devices-to-allocate", "d;;dd;") ∷ [];
}

abbrev requests : List Request
requests = ("die-0-3" ∷ []) ∷ []

abbrev more_requests : List Request
more_requests = ("die-0-3" ∷ "die-0-4" ∷ []) ∷ []

abbrev first_response : ContainerAllocateResponse
first_response =
    (respond Servers.mgr host pending_pod "setup" (pos 0) []
      (record nothing_gathered { ids = pos 0 ∷ [] })).0

abbrev second_response : ContainerAllocateResponse
second_response =
    (respond Servers.mgr host pending_pod "main" (pos 0) (pos 0 ∷ [])
      (record nothing_gathered { ids = pos 0 ∷ pos 0 ∷ [] })).0

abbrev both : List ContainerAllocateResponse
both = first_response ∷ second_response ∷ []

allocate_calls-allocate_example :
    (allocate_calls codec ps Servers.mgr host pending_pod (requests ∷ more_requests ∷ []) ≡ ok both)
    ↔ ((allocate codec ps Servers.mgr host (found pending_pod) (requests ++ more_requests)).0
        ≡ ok both)
allocate_calls-allocate_example =
    allocate_calls-allocate codec ps Servers.mgr host (λ pod annos. refl)
      (new_plugin_server-IsKeyed (λ s. s) Servers.mgr "node-1" (pos 60) true [] host refl)
      codec-IsCodec pending_pod requests (more_requests ∷ []) both

-- One call serves both.
one_call :
    (allocate codec ps Servers.mgr host (found pending_pod) (requests ++ more_requests)).0 ≡ ok both
unfolding allocate lookup insert decode decode_all encode prepare build_runtime_info_lookup
    new_plugin_server decode_device_annotations finish serve_requests serve_request
    pop_next_container_devices serve_container build_container_allocate_response gather find_device
    respond_to note_info index_infos patch_erased_annotation ctr_name_at
one_call = refl
