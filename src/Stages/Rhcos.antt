-- ===== src/Stages/Rhcos.antt =====
-- stages/downloadrhcos: the live boot media. The reading of a file as bytes, the texts of messages and
-- `compress/gzip` are parameters.
pub mod Kernel
use easyshift.Base.{
  ℕ, ◌+◌, ◌*◌, ◌-◌, ◌%◌, String, ◌<>◌, Bool, true, false, not, ◌&&◌, Option, none, some, List, [],
  ◌∷◌, ltb, leb, eqb, if◌then◌else◌,
}
use easyshift.Base.Lists.{length}
use easyshift.Base.Text.{decimal}
use easyshift.Base.Action.{
  Error, Result, ok, err, map_err, Action, Effect, ◌>>◌, ◌>>=◌, done, wrap, finally,
}
use easyshift.Interfaces.Os.{Files}
use easyshift.Interfaces.Stage.{Stage}
use easyshift.Interfaces.Providers.{Downloader}
use easyshift.Interfaces.Install.{
  Installer, CoreOsLivePxe, installer_spec, rhcos_live_iso_path, rhcos_kernel_path,
  rhcos_initramfs_path, rhcos_rootfs_path,
}
use easyshift.Config.Types.{ClusterConfig, Pointer}
use easyshift.Config.Memory.{Memory, on_world}
use easyshift.Config.Paths.{rhcos_cache_dir}
use easyshift.Config.Secrets.{read}
use easyshift.Stages.Binaries.{is_missing}

-- What a function does that slices: it may panic.
pub data Run : Type 0 where
  panic : Run
  ran : Result (List ℕ) → Run

abbrev pub take : ℕ → List ℕ → List ℕ
take n [] = []
take n (x ∷ xs) = if eqb n 0 then [] else x ∷ take (n - 1) xs

abbrev pub drop : ℕ → List ℕ → List ℕ
drop n [] = []
drop n (x ∷ xs) = if eqb n 0 then x ∷ xs else drop (n - 1) xs

-- `data[from:to]`, which panics out of range.
abbrev pub slice : ℕ → ℕ → List ℕ → Option (List ℕ)
slice from to data' =
    if leb from to && leb to (length data') then some (take (to - from) (drop from data')) else none

-- `off + size` of uint32
abbrev pub add_u32 : ℕ → ℕ → ℕ
add_u32 a b = (a + b) % 4294967296

abbrev pub u32 : ℕ → ℕ → ℕ → ℕ → ℕ
u32 a b c d = a + (256 * b + (65536 * c + 16777216 * d))

-- "MZ" at 0 and "zimg" at 4.
abbrev pub is_zboot : List ℕ → Bool
is_zboot (m ∷ z ∷ a ∷ b ∷ i0 ∷ i1 ∷ i2 ∷ i3 ∷ rest) =
    eqb m 77 && (eqb z 90 && (eqb i0 122 && (eqb i1 105 && (eqb i2 109 && eqb i3 103))))
is_zboot _ = false

abbrev pub is_gzip : List ℕ → Bool
is_gzip (a ∷ b ∷ rest) = eqb a 31 && eqb b 139
is_gzip _ = false

-- The offset and the size of the payload.
abbrev pub header : List ℕ → ℕ × ℕ
header (m ∷ z ∷ a ∷ b ∷ i0 ∷ i1 ∷ i2 ∷ i3 ∷ o0 ∷ o1 ∷ o2 ∷ o3 ∷ s0 ∷ s1 ∷ s2 ∷ s3 ∷ rest) =
    (u32 o0 o1 o2 o3, u32 s0 s1 s2 s3)
header _ = (0, 0)

-- `bytes.TrimRight(s, "\x00")`
abbrev pub trim_zeros : List ℕ → List ℕ
trim_zeros [] = []
trim_zeros (b ∷ bs) =
    let rest = trim_zeros bs in if eqb b 0 && eqb (length rest) 0 then [] else b ∷ rest

abbrev pub is_text_gzip : List ℕ → Bool
is_text_gzip (g ∷ z ∷ i ∷ p ∷ []) = eqb g 103 && (eqb z 122 && (eqb i 105 && eqb p 112))
is_text_gzip _ = false

-- Bytes of a file's contents and back, `%q` of bytes, and the reader of package gzip.
pub record Bytes : Type 0 where
  pub of_text : String → List ℕ
  pub to_text : List ℕ → String
  pub quoted : List ℕ → String
  pub unzip : List ℕ → Result (List ℕ)

module _ (bytes : Bytes) where
  abbrev pub gunzip : List ℕ → Result (List ℕ)
  gunzip b = map_err (λ e. "gunzip kernel: " <> e) (bytes.unzip b)

  abbrev pub exceeds : ℕ → ℕ → ℕ → Error
  exceeds off size len =
      "zboot payload ["
      <> (decimal off <> (":" <> (decimal (off + size) <> ("] exceeds file size " <> decimal len))))

  -- The `switch` on the compression.
  abbrev pub unpack : List ℕ → List ℕ → Result (List ℕ)
  unpack comp payload =
      if is_text_gzip comp
      then gunzip payload
      else err ("unsupported zboot kernel compression " <> bytes.quoted comp)

  abbrev of_slice : List ℕ → Option (List ℕ) → Run
  of_slice comp none = panic
  of_slice comp (some payload) = ran (unpack comp payload)

  abbrev pub compression : List ℕ → List ℕ
  compression data' = trim_zeros (take 32 (drop 24 data'))

  unfoldable pub unpack_zboot : ℕ → ℕ → List ℕ → Run
  unpack_zboot off size data' =
      if ltb (length data') (off + size)
      then ran (err (exceeds off size (length data')))
      else of_slice (compression data') (slice off (add_u32 off size) data')

  unfoldable pub uncompress_kernel : List ℕ → Run
  unfolding unpack_zboot
  uncompress_kernel data' =
      if ltb 56 (length data') && is_zboot data'
      then unpack_zboot (header data').0 (header data').1 data'
      else if leb 2 (length data') && is_gzip data'
      then ran (gunzip data')
      else ran (ok data')

-- A panic ends the program; here it is an error, and a theorem excludes it.
abbrev result_of : Run → Result (List ℕ)
result_of panic = err "panic: slice bounds out of range"
result_of (ran r) = r

module _ {W : Type 0} (darwin : Bool) (goarch : String) (bytes : Bytes) (files : Files W)
    (installer : Installer W) (dl : Downloader W) (p : Pointer) where
  abbrev give : {A : Type 0} → Result A → Action W A
  give r w = (w, r)

  unfoldable pub download_kernel : String → String → Effect W
  unfolding uncompress_kernel
  download_kernel url dst =
      let tmp = dst <> ".download" in
      do
        dl.download url tmp
        finally (files.remove tmp) (do
          text ← read files tmp
          raw ← give (result_of (uncompress_kernel bytes (bytes.of_text text)))
          files.write_file dst (bytes.to_text raw))

  abbrev unless_cached : String → Effect W → Effect W
  unless_cached path fetch w = elim (is_missing (files.stat path w)) [
    | true ↦ fetch w
    | false ↦ (w, ok tt)
  ]

  abbrev fetch_assets : String → ClusterConfig → CoreOsLivePxe → Effect W
  fetch_assets dir c pxe = do
    files.mkdir_all (rhcos_cache_dir dir c.ocp_version)
    unless_cached (rhcos_initramfs_path dir c) (
        wrap (λ e. "download initramfs.img: " <> e)
          (dl.download pxe.initramfs_url (rhcos_initramfs_path dir c)))
    unless_cached (rhcos_rootfs_path dir c) (
        wrap (λ e. "download rootfs.img: " <> e)
          (dl.download pxe.rootfs_url (rhcos_rootfs_path dir c)))
    unless_cached (rhcos_kernel_path dir c) (
        wrap (λ e. "download kernel: " <> e)
          (download_kernel pxe.kernel_url (rhcos_kernel_path dir c)))

  abbrev fetch_pxe : String → ClusterConfig → Effect W
  fetch_pxe dir c = do
    pxe ←
        wrap (λ e. "determine RHCOS live PXE urls: " <> e)
          (installer.core_os_live_pxe_urls (installer_spec dir c goarch))
    fetch_assets dir c pxe

  abbrev all_cached : String → ClusterConfig → W → Bool
  all_cached dir c w =
      not (is_missing (files.stat (rhcos_kernel_path dir c) w))
      && (not (is_missing (files.stat (rhcos_initramfs_path dir c) w))
          && not (is_missing (files.stat (rhcos_rootfs_path dir c) w)))

  unfoldable pub apply_pxe : String → ClusterConfig → Effect W
  unfolding download_kernel
  apply_pxe dir c w = elim (all_cached dir c w) [ true ↦ (w, ok tt) | false ↦ fetch_pxe dir c w ]

  abbrev fetch_iso : String → ClusterConfig → Effect W
  fetch_iso dir c = do
    url ←
        wrap (λ e. "determine RHCOS live ISO url: " <> e)
          (installer.core_os_live_iso_url (installer_spec dir c goarch))
    dl.download url (rhcos_live_iso_path dir c)

  unfoldable pub apply_iso : String → ClusterConfig → Effect W
  apply_iso dir c w = unless_cached (rhcos_live_iso_path dir c) (fetch_iso dir c) w

  unfoldable pub apply : Effect (Memory W)
  unfolding apply_pxe apply_iso
  apply m =
      let dir = m.config.config_dir in
      let c = m.heap p in
      if darwin then on_world (apply_pxe dir c) m else on_world (apply_iso dir c) m

  unfoldable pub stage : Stage (Memory W)
  unfolding apply
  stage = record { name = "download-rhcos"; apply = apply; rollback = done; preflight = none }
