-- ===== src/Server/HostResources/Copying.antt =====
-- internal/server/util.go: what copying one file leaves readable, and where.
use ascend_device_plugin.Base.{
  ℕ, String, true, ◌≡◌, ◌≢◌, refl, sym, ap, ◌∙◌, inl, inr, List, [], ◌∷◌, Memᴰ, Result, ok, err,
  Error, Result-cases,
}
use ascend_device_plugin.Config.{Bytes}
use ascend_device_plugin.Server.HostResources.{
  HostFiles, Step, file_sha256, then_do, copy_mode, copy_file,
}

-- What is relied on of the file system: creating, filling and chmod of a file leave the others readable as
-- they were, a copy that succeeds reads as its source, and chmod leaves its file's bytes.
pub record IsHost {F : Type 0} (os : HostFiles F) : Type 0 where
  pub create_other :
      (f : F) (dst p : String) → p ≢ dst → os.read_file (os.create f dst).1 p ≡ os.read_file f p
  pub copy_other :
      (f : F) (src dst p : String)
      → p ≢ dst
      → os.read_file (os.copy f src dst).1 p ≡ os.read_file f p
  pub copy_same :
      (f : F) (src dst : String)
      → (os.copy f src dst).0 ≡ ok tt
      → src ≢ dst
      → os.read_file (os.copy f src dst).1 dst ≡ os.read_file f src
  pub chmod_any :
      (f : F) (dst : String) (m : ℕ) (p : String)
      → os.read_file (os.chmod f dst m).1 p ≡ os.read_file f p

-- No file is read or written at a path where a later one, or itself, is written.
abbrev pub AreSeparate : List (String × String) → Type 0
AreSeparate [] = Unit {0}
AreSeparate ((src, dst) ∷ files) =
    (src ≢ dst)
    × ((x : String × String) → Memᴰ x files → src ≢ x.1)
    × ((x : String × String) → Memᴰ x files → dst ≢ x.1)
    × AreSeparate files

module _ {F : Type 0} (os : HostFiles F) where
  -- The two files have the same checksum, or cannot be read for the same reason.
  abbrev pub IsInstalled : F → String → String → Type 0
  IsInstalled f src dst = file_sha256 os f src ≡ file_sha256 os f dst

  -- A copy failed because a process runs the file.
  abbrev pub IsKept : String → String → Type 0
  IsKept src dst =
      (f : F) × (e : Error) × ((copy_file os f src dst).0 ≡ err e) × (os.is_busy e ≡ true)

  pub sum-read :
      (f g : F) (p q : String)
      → os.read_file f p ≡ os.read_file g q
      → file_sha256 os f p ≡ file_sha256 os g q
  unfolding file_sha256
  sum-read f g p q same =
      ap
        (λ r. elim r as (λ _. Result String) [
          | err e ↦ err e
          | ok bytes ↦ ok (os.sha256_hex bytes)
        ])
        same

module _ {F : Type 0} (os : HostFiles F) (host : IsHost os) where
  copy_mode-any :
      (src dst p : String) (f : F) → os.read_file (copy_mode os src dst f).1 p ≡ os.read_file f p
  unfolding copy_mode
  copy_mode-any src dst p f = elim (Result-cases (os.mode f src)) [
    | inl (m, e) ↦ rw (copy_mode, e) (host.chmod_any f dst m p)
    | inr (x, e) ↦ rw (copy_mode, e) refl
  ]

  pub then_do-keeps :
      (s : Step os) (next : F → Step os) (p : String) (r : Result Bytes)
      → os.read_file s.1 p ≡ r
      → ((f : F) → os.read_file f p ≡ r → os.read_file (next f).1 p ≡ r)
      → os.read_file (then_do os s next).1 p ≡ r
  then_do-keeps (err e, f) next p r now later = now
  then_do-keeps (ok t, f) next p r now later = later f now

  pub copy_file-other :
      (f : F) (src dst p : String)
      → p ≢ dst
      → os.read_file (copy_file os f src dst).1 p ≡ os.read_file f p
  unfolding copy_file
  copy_file-other f src dst p other = elim (Result-cases (os.open_file f src)) [
    | inr (x, e) ↦ rw (copy_file, e) refl
    | inl (t, e) ↦
        rw (copy_file, e)
          (then_do-keeps (os.create f dst) _ p _ (host.create_other f dst p other) λ g same.
            then_do-keeps (os.copy g src dst) _ p _ (host.copy_other g src dst p other ∙ same)
              λ k same'. copy_mode-any src dst p k ∙ same')
  ]

  pub then_do-ok :
      (s : Step os) (next : F → Step os) (g : F)
      → then_do os s next ≡ (ok tt, g)
      → (f : F) × (s ≡ (ok tt, f)) × (next f ≡ (ok tt, g))
  then_do-ok (err e, f) next g h =
      let never : Path (Result (Unit {0})) (err e) (ok tt) = ap (λ x. x.0) h in absurd (cc)
  then_do-ok (ok t, f) next g h = (f, refl, h)

  pub copy_file-same :
      (f : F) (src dst : String) (g : F)
      → src ≢ dst
      → copy_file os f src dst ≡ (ok tt, g)
      → os.read_file g dst ≡ os.read_file g src
  unfolding copy_file
  copy_file-same f src dst g apart h = elim (Result-cases (os.open_file f src)) [
    | inr (x, e) ↦
        let step : copy_file os f src dst ≡ (err x, f) = rw (copy_file, e) refl in
        let never : Path (Result (Unit {0})) (err x) (ok tt) = ap (λ x. x.0) (sym step ∙ h) in
        absurd (cc)
    | inl (t, e) ↦
        let step : copy_file os f src dst
            ≡ then_do os (os.create f dst)
                (λ created. then_do os (os.copy created src dst) (copy_mode os src dst)) =
          rw (copy_file, e) refl in
        let (created, p, rest) = then_do-ok (os.create f dst) _ g (sym step ∙ h) in
        let (filled, q, last) = then_do-ok (os.copy created src dst) _ g rest in
        let end : (copy_mode os src dst filled).1 ≡ g = ap (λ x. x.1) last in
        let made : (os.create f dst).1 ≡ created = ap (λ x. x.1) p in
        let full : (os.copy created src dst).1 ≡ filled = ap (λ x. x.1) q in
        let whole : os.read_file g src ≡ os.read_file f src =
          ap (λ k. os.read_file k.1 src) (sym h) ∙ copy_file-other f src dst src apart in
        ap (λ k. os.read_file k dst) (sym end)
        ∙ copy_mode-any src dst dst filled
        ∙ ap (λ k. os.read_file k dst) (sym full)
        ∙ host.copy_same created src dst (ap (λ x. x.0) q) apart
        ∙ ap (λ k. os.read_file k src) (sym made)
        ∙ host.create_other f dst src apart
        ∙ sym whole
  ]
