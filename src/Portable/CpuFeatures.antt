-- ===== src/Portable/CpuFeatures.antt =====
-- src/cpu_features.rs for every architecture and system that it names.
use kernelkit.Common.{ℕ, ◌*◌, Bool, true, false, not, ◌&&◌, ◌||◌, ◌≡◌, refl, arith}
use kernelkit.CpuFeatures.Detect as Linux
use kernelkit.CpuFeatures.Detect.{
  CpuFeatures, Cpu, line_size, probe_l1_cache_size, read_cache_value,
}

-- `target_arch`
pub data Arch : Type 0 where
  x86 x86_64 aarch64 arm other_arch : Arch

-- `target_os`
pub data System : Type 0 where
  linux other_system : System

abbrev is_x86 : Arch → Bool
is_x86 x86 = true
is_x86 x86_64 = true
is_x86 aarch64 = false
is_x86 arm = false
is_x86 other_arch = false

module _ (arch : Arch) (system : System) (cpu : Cpu) where
  -- `detect_avx512`, `detect_avx512bw`, `detect_avx512vl`, `detect_avx512vbmi` and `detect_avx2`
  unfoldable pub detect_avx512 : Bool
  detect_avx512 = is_x86 arch && cpu.has "avx512f"

  unfoldable pub detect_avx512bw : Bool
  detect_avx512bw = is_x86 arch && cpu.has "avx512bw"

  unfoldable pub detect_avx512vl : Bool
  detect_avx512vl = is_x86 arch && cpu.has "avx512vl"

  unfoldable pub detect_avx512vbmi : Bool
  detect_avx512vbmi = is_x86 arch && cpu.has "avx512vbmi"

  unfoldable pub detect_avx2 : Bool
  detect_avx2 = is_x86 arch && cpu.has "avx2"

  -- The answer for NEON on the two architectures of ARM.
  abbrev neon_on : Arch → Bool
  neon_on x86 = false
  neon_on x86_64 = false
  neon_on aarch64 = cpu.has "neon"
  neon_on arm = cpu.has "neon"
  neon_on other_arch = false

  -- `detect_neon`
  unfoldable pub detect_neon : Bool
  detect_neon = neon_on arch

  abbrev cache_sizes_on : System → ℕ × ℕ × ℕ × ℕ
  cache_sizes_on linux = (
    line_size cpu,
    Linux.get_or_default cpu (probe_l1_cache_size cpu) (32 * 1024),
    Linux.get_or_default cpu (read_cache_value cpu "/sys/devices/system/cpu/cpu0/cache/index2/size")
        (256 * 1024),
    Linux.get_or_default cpu (read_cache_value cpu "/sys/devices/system/cpu/cpu0/cache/index3/size")
        0,
  )
  cache_sizes_on other_system = (64, 32 * 1024, 256 * 1024, 0)

  -- `detect_cache_sizes`
  unfoldable pub detect_cache_sizes : ℕ × ℕ × ℕ × ℕ
  detect_cache_sizes = cache_sizes_on system

  -- `detect_impl`
  unfoldable pub detect_impl : CpuFeatures
  unfolding detect_avx512 detect_avx512bw detect_avx512vl detect_avx512vbmi detect_avx2 detect_neon
      detect_cache_sizes
  detect_impl =
      let (cache_line_size, l1_size, l2_size, l3_size) = detect_cache_sizes in
      let avx512 = detect_avx512 in
      record {
        avx512 = avx512;
        avx512bw = avx512 && detect_avx512bw;
        avx512vl = avx512 && detect_avx512vl;
        avx512vbmi = avx512 && detect_avx512vbmi;
        avx2 = detect_avx2;
        neon = detect_neon;
        cache_line_size = cache_line_size;
        l1_size = l1_size;
        l2_size = l2_size;
        l3_size = l3_size;
      }

-- On x86_64 and Linux the features are those of the development of that target.
detect_impl-x86_64 : (cpu : Cpu) → detect_impl x86_64 linux cpu ≡ Linux.detect_impl cpu
unfolding detect_impl Linux.detect_impl
detect_impl-x86_64 cpu = refl

-- On every target, whatever the machine answers, an extension of AVX-512 is reported only with its
-- foundation, and NEON never together with AVX2 or AVX-512.
pub detect_impl-exclusive :
    (arch : Arch) (system : System) (cpu : Cpu)
    → let f = detect_impl arch system cpu in
      ((f.avx512bw || f.avx512vl || f.avx512vbmi) && not f.avx512 ≡ false)
      × (f.neon && (f.avx2 || f.avx512) ≡ false)
unfolding detect_impl detect_neon
detect_impl-exclusive arch system cpu = grind arith
