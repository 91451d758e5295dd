-- ===== src/CpuFeatures/Detect.antt =====
-- src/cpu_features.rs: `detect`, which runs `detect_impl` once and keeps its result in a cell. The
-- processor's answers to `is_x86_feature_detected!` and the files of sysfs are parameters.
use kernelkit.Common.{ℕ, ◌*◌, String, Bool, false, ◌&&◌, ◌||◌, Option, none, some, if◌then◌else◌}
use kernelkit.Text.{Text, codes, trim, to_ascii_lowercase}
use kernelkit.Bytes.{bytes_eq}
use kernelkit.CpuFeatures.CacheValue.{or_else, parse_cache_value}

-- `CpuFeatures`
pub record CpuFeatures : Type 0 where
  pub avx512 : Bool
  pub avx512bw : Bool
  pub avx512vl : Bool
  pub avx512vbmi : Bool
  pub avx2 : Bool
  pub neon : Bool
  pub cache_line_size : ℕ
  pub l1_size : ℕ
  pub l2_size : ℕ
  pub l3_size : ℕ

-- The machine that is looked at: its features by name, and the text of a file, where it can be
-- read.
pub record Cpu : Type 0 where
  pub has : String → Bool
  pub file : String → Option Text

module _ (cpu : Cpu) where
  abbrev parse_trimmed : Option Text → Option ℕ
  parse_trimmed none = none
  parse_trimmed (some raw) = parse_cache_value (trim raw)

  -- `read_cache_value`
  unfoldable pub read_cache_value : String → Option ℕ
  read_cache_value path = parse_trimmed (cpu.file path)

  abbrev pub get_or_default : Option ℕ → ℕ → ℕ
  get_or_default none d = d
  get_or_default (some n) d = n

  -- One turn of the loop of `probe_l1_cache_size`: the size, if the cache holds data.
  abbrev data_size : Option Text → String → Option ℕ
  data_size none size_path = none
  data_size (some type) size_path =
      let cache_type = to_ascii_lowercase (trim type) in
      if bytes_eq cache_type (codes "data") || bytes_eq cache_type (codes "unified")
      then read_cache_value size_path
      else none

  -- `probe_l1_cache_size`
  unfoldable pub probe_l1_cache_size : Option ℕ
  unfolding read_cache_value bytes_eq
  probe_l1_cache_size =
      or_else
        (data_size (cpu.file "/sys/devices/system/cpu/cpu0/cache/index0/type")
          "/sys/devices/system/cpu/cpu0/cache/index0/size")
        (or_else
          (data_size (cpu.file "/sys/devices/system/cpu/cpu0/cache/index1/type")
            "/sys/devices/system/cpu/cpu0/cache/index1/size")
          (or_else (read_cache_value "/sys/devices/system/cpu/cpu0/cache/index0/size")
            (read_cache_value "/sys/devices/system/cpu/cpu0/cache/index1/size")))

  -- `detect_cache_sizes`
  unfoldable pub line_size : ℕ
  unfolding read_cache_value
  line_size =
      get_or_default
        (or_else (read_cache_value "/sys/devices/system/cpu/cpu0/cache/index0/coherency_line_size")
          (read_cache_value "/sys/devices/system/cpu/cpu0/cache/index1/coherency_line_size"))
        64

  -- `detect_impl`
  unfoldable pub detect_impl : CpuFeatures
  unfolding probe_l1_cache_size line_size read_cache_value
  detect_impl =
      let avx512 = cpu.has "avx512f" in
      record {
        avx512 = avx512;
        avx512bw = avx512 && cpu.has "avx512bw";
        avx512vl = avx512 && cpu.has "avx512vl";
        avx512vbmi = avx512 && cpu.has "avx512vbmi";
        avx2 = cpu.has "avx2";
        neon = false;
        cache_line_size = line_size;
        l1_size = get_or_default probe_l1_cache_size (32 * 1024);
        l2_size =
            get_or_default (read_cache_value "/sys/devices/system/cpu/cpu0/cache/index2/size")
              (256 * 1024);
        l3_size =
            get_or_default (read_cache_value "/sys/devices/system/cpu/cpu0/cache/index3/size") 0;
      }

  -- `detect`: `OnceLock::get_or_init` on the static cell.
  unfoldable pub detect : Option CpuFeatures → CpuFeatures × Option CpuFeatures
  unfolding detect_impl
  detect (some features) = (features, some features)
  detect none = (detect_impl, some detect_impl)
