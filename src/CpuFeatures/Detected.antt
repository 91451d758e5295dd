-- ===== src/CpuFeatures/Detected.antt =====
-- src/cpu_features.rs: the features of AVX-512, and a second call of `detect`.
use kernelkit.Common.{◌||◌, true, ◌≡◌, refl, Option, none, some, arith}
use kernelkit.CpuFeatures.Detect.{CpuFeatures, Cpu, detect, detect_impl}

module _ (cpu : Cpu) where
  -- Any of the three extensions of AVX-512 is reported only with its foundation.
  pub detect_impl-avx512 :
      (let f = detect_impl cpu in f.avx512bw || f.avx512vl || f.avx512vbmi) ≡ true
      → (detect_impl cpu).avx512 ≡ true
  unfolding detect_impl
  detect_impl-avx512 h = grind arith

-- The features are those of the first look for good: a second look, on a machine that has changed
-- too, gives the same and leaves the cell as it is.
pub detect_once :
    (cpu later : Cpu) (cell : Option CpuFeatures)
    → detect later (detect cpu cell).1 ≡ detect cpu cell
unfolding detect
detect_once cpu later none = refl
detect_once cpu later (some features) = refl
