-- ===== src/Tests/Hosting.antt =====
-- The plugin's files on a host that has none of them, as a map from paths to bytes.
use Prim.Native.String
use ascend_device_plugin.Base.{
  String, true, false, [], ◌∷◌, Option, none, some, Result, ok, err, external,
}
use ascend_device_plugin.Base.Dict.{Dict, lookup, insert}
use ascend_device_plugin.Config.{Bytes}
use ascend_device_plugin.Server.HostResources.{HostFiles}

abbrev content : Option Bytes → Result Bytes
content none = err (external "no such file")
content (some bytes) = ok bytes

abbrev filled : String → Dict Bytes → Option Bytes → Result (Unit {0}) × Dict Bytes
filled dst files none = (err (external "no such file"), files)
filled dst files (some bytes) = (ok tt, insert dst bytes files)

abbrev os : HostFiles (Dict Bytes)
os = record {
  open_file = λ files path. ok tt;
  read_file = λ files path. content (lookup path files);
  create = λ files path. (ok tt, insert path [] files);
  copy = λ files src dst. filled dst files (lookup src files);
  mode = λ files path. ok 493;
  chmod = λ files path mode. (ok tt, files);
  mkdir_all = λ files path mode. (ok tt, files);
  is_exist = λ e. false;
  exists = λ files path. elim (lookup path files) [ none ↦ false | some bytes ↦ true ];
  sha256_hex = λ bytes. elim bytes [ [] ↦ "empty" | _ ∷ _ ↦ "full" ];
  is_busy = λ e. false;
  assets_path_env = "";
  join = λ dir name. String.◌++◌ dir (String.◌++◌ "/" name);
  order = λ files. files;
}

abbrev files : Dict Bytes
files =
    ("/usr/local/hami-vnpu-core-assets/libvnpu.so", 1 ∷ [])
    ∷ ("/usr/local/hami-vnpu-core-assets/ld.so.preload", 2 ∷ [])
    ∷ []

abbrev installed : Dict Bytes
installed =
    ("/usr/local/hami-vnpu-core-assets/libvnpu.so", 1 ∷ [])
    ∷ ("/usr/local/hami-vnpu-core-assets/ld.so.preload", 2 ∷ [])
    ∷ ("/usr/local/hami-vnpu-core/libvnpu.so", 1 ∷ [])
    ∷ ("/usr/local/hami-vnpu-core/ld.so.preload", 2 ∷ [])
    ∷ []
