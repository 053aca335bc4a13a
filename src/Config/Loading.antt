-- ===== src/Config/Loading.antt =====
-- internal/vnpu.go, LoadConfig: which files are accepted, and what every error is.
use ascend_device_plugin.Base.{
  ◌≡◌, refl, ◌↔◌, ◌⊎◌, inl, inr, true, Result, ok, err, Error, external, unmarshal_type, message,
  wrap, String, eq_iff, arith, Bool-cases, >>=-eq-ok,
}
use ascend_device_plugin.Config.{
  Config, LegacyConfig, Files, Bytes, as_unmarshal_type_error, is_legacy_vnpus_layout, load_config,
  decode_config,
}

-- The first error of the chain that says which type did not fit says that "vnpus" holds an array.
abbrev pub SaysVnpusIsArray : Error → Type 0
SaysVnpusIsArray (external e) = ⊥
SaysVnpusIsArray (unmarshal_type field value) = (field ≡ "vnpus") × (value ≡ "array")
SaysVnpusIsArray (message m) = ⊥
SaysVnpusIsArray (wrap m e) = SaysVnpusIsArray e

is_legacy_vnpus_layout_iff : (e : Error) → (is_legacy_vnpus_layout e ≡ true) ↔ SaysVnpusIsArray e
unfolding is_legacy_vnpus_layout as_unmarshal_type_error
is_legacy_vnpus_layout_iff (external e) = (λ h. cc, λ h. absurd h)
is_legacy_vnpus_layout_iff (unmarshal_type field value) = (
  λ h. (ground (arith, eq_iff field "vnpus"), ground (arith, eq_iff value "array")),
  λ (f, v). ground (arith, eq_iff field "vnpus", eq_iff value "array"),
)
is_legacy_vnpus_layout_iff (message m) = (λ h. cc, λ h. absurd h)
is_legacy_vnpus_layout_iff (wrap m e) = is_legacy_vnpus_layout_iff e

-- The file's bytes decode in the current layout, or they fail to since "vnpus" is an array, and decode
-- in the old one, whose switch and list of entries are those of the configuration.
abbrev pub Decodes : Files → Bytes → Config → Type 0
Decodes f bytes c =
    (f.unmarshal_config bytes ≡ ok c)
    ⊎ ((e : Error) × (l : LegacyConfig) × (f.unmarshal_config bytes ≡ err e)
        × SaysVnpusIsArray e
        × (f.unmarshal_legacy bytes ≡ ok l)
        × (c ≡ record { vnpus = record { hami_vnpu_core = l.hami_vnpu_core; configs = l.vnpus } }))

decode_of_ok :
    (f : Files) (bytes : Bytes) (r : Result Config) (c : Config)
    → f.unmarshal_config bytes ≡ r
    → decode_config f bytes r ≡ ok c
    → Decodes f bytes c
unfolding decode_config
decode_of_ok f bytes (ok c') c eq h = inl (ground arith)
decode_of_ok f bytes (err e) c eq h = elim (Bool-cases (is_legacy_vnpus_layout e)) [
  | inl legacy ↦
      let (l, decoded, same) = >>=-eq-ok (f.unmarshal_legacy bytes) _ (rw legacy at h) in
      inr (e, l, eq, (is_legacy_vnpus_layout_iff e).0 legacy, decoded, ground arith)
  | inr other ↦ ground arith
]

-- LoadConfig returns a configuration exactly when the file can be read and its bytes decode in one of
-- the two layouts, and it is that configuration.
pub load_config_iff :
    (f : Files) (path : String) (c : Config)
    → (load_config f path ≡ ok c)
      ↔ ((bytes : Bytes) × (f.read_file path ≡ ok bytes) × Decodes f bytes c)
unfolding load_config
load_config_iff f path c = (
  λ h.
      let (bytes, e, d) = >>=-eq-ok (f.read_file path) _ h in
      (bytes, e, decode_of_ok f bytes (f.unmarshal_config bytes) c refl d),
  λ (bytes, e, d). rw e (elim d [
    | inl now ↦ rw now refl
    | inr (e', l, failed, says, decoded, same) ↦
        let legacy = (is_legacy_vnpus_layout_iff e').1 says in
        rw (failed, decode_config) (rw (legacy, decoded) (ground arith))
  ]),
)
