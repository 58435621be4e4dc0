-- ===== src/Stages/Rhcos/Kernel.antt =====
-- `uncompressKernel` against a reading of the file that never slices out of range.
use easyshift.Base.{ℕ, ◌+◌, ◌-◌, ◌<◌, ◌≤◌, ◌≡◌, ◌&&◌, List, some, ltb, leb, if◌then◌else◌, arith}
use easyshift.Base.Lists.{length}
use easyshift.Base.Action.{Result, ok, err}
use easyshift.Stages.Rhcos.{
  ran, take, drop, slice, add_u32, is_zboot, is_gzip, header, Bytes, gunzip, exceeds, unpack,
  compression, unpack_zboot, uncompress_kernel,
}

module _ (bytes : Bytes) where
  -- What a kernel image unpacks to: the bytes of the payload behind its offset, without wrap-around.
  abbrev pub image_of : List ℕ → Result (List ℕ)
  image_of data' =
      let off = (header data').0 in
      let size = (header data').1 in
      if ltb 56 (length data') && is_zboot data'
      then (if leb (off + size) (length data')
          then unpack bytes (compression bytes data') (take size (drop off data'))
          else err (exceeds bytes off size (length data')))
      else if leb 2 (length data') && is_gzip data'
      then gunzip bytes data'
      else ok data'

  slice-lem :
      (off size : ℕ) (data' : List ℕ)
      → length data' < 4294967296
      → off + size ≤ length data'
      → slice off (add_u32 off size) data' ≡ some (take size (drop off data'))
  slice-lem off size data' small fits =
      let e : add_u32 off size ≡ off + size = omega arith in
      let d : (off + size) - off ≡ size = omega arith in rw (e, d) (ground arith)

  -- A kernel image of less than 4 GiB is unpacked without a panic: the payload is the bytes that the
  -- header names, and a header that names bytes behind the end of the file is refused. In particular
  -- the sum of 32 bits does not wrap where the slice is taken.
  pub uncompress_kernel-image_of :
      (data' : List ℕ)
      → length data' < 4294967296
      → uncompress_kernel bytes data' ≡ ran (image_of data')
  unfolding uncompress_kernel unpack_zboot
  uncompress_kernel-image_of data' small =
      ground (arith, slice-lem (header data').0 (header data').1 data' small)
