-- ===== src/Tests/Gpu.antt =====
-- The gpu peak and the NVML collector at concrete inputs.
use workstation_probe.Common.{ℕ, ◌≡◌, zero, suc, refl, true, none, some, List, [], ◌∷◌, codes}
use workstation_probe.Common.Int.{pos}
use workstation_probe.Common.Time.{add_neg}
use workstation_probe.Common.Result.{ok, err}
use workstation_probe.Ring.{RingBuffer, snapshot}
use workstation_probe.Gpu.{
  Device, Sample, zero_sample, peak, peak_loop, merge_all, merge_one, position_of,
}
use workstation_probe.Gpu.Peak.{
  window, merge_samples, last_stamp, peak_of, peak-merge_samples, find_device,
}
use workstation_probe.Gpu.Devices.{readings, own, IsPeakOf, peak-device}
use workstation_probe.Gpu.Nvml.{Nvml, Collector, init, enumerate, new_nvml_collector}
use workstation_probe.Gpu.Nvml.Laws.{IsConsistent, init-IsConsistent}
use workstation_probe.Tests.Floats.{whole}

abbrev gpu_at : ℕ → ℕ → Device whole
gpu_at i load = record {
  index = i;
  uuid = codes "u";
  name = codes "g";
  utilization_gpu_percent = load;
  utilization_mem_percent = 1;
  memory_total_bytes = 100;
  memory_used_bytes = load;
  temperature_c = 40;
  power_draw_watts = 9;
  power_limit_watts = 0;
  error = [];
}

abbrev sample_at : ℕ → List (Device whole) → Sample whole
sample_at at devices = record { timestamp = pos at; devices = devices; error = [] }

abbrev ring : RingBuffer (Sample whole)
ring = record {
  cap = 2;
  storage =
      sample_at 8 (gpu_at 0 70 ∷ gpu_at 2 5 ∷ [])
      ∷ sample_at 9 (gpu_at 2 60 ∷ gpu_at 0 3 ∷ [])
      ∷ [];
  head = 0;
  full = true;
}

peak-merge_samples_example :
    let w = window whole (add_neg (pos 10) (pos 5)) (snapshot (zero_sample whole) ring) in
    peak whole (pos 10) ring (pos 5)
    ≡ peak_of whole (last_stamp whole none w) (merge_samples whole w [])
peak-merge_samples_example = peak-merge_samples whole (pos 10) ring (pos 5)

abbrev merged : Sample whole
merged = sample_at 9 (gpu_at 0 70 ∷ gpu_at 2 60 ∷ [])

peak_runs : peak whole (pos 10) ring (pos 5) ≡ some merged
unfolding peak peak_loop merge_all merge_one position_of snapshot add_neg
peak_runs = refl

peak-device_example :
    IsPeakOf whole
      (own whole 2 (
        readings whole
          (window whole (add_neg (pos 10) (pos 5)) (snapshot (zero_sample whole) ring))))
      (find_device whole 2 merged.devices)
peak-device_example = peak-device whole (pos 10) ring (pos 5) 2 merged peak_runs

-- Two devices, of which the first fails to enumerate.
abbrev library : Nvml
library = record {
  Handle = ℕ;
  init = ok tt;
  device_get_count = ok 2;
  device_get_handle_by_index = λ i. elim i [ zero ↦ none | suc n ↦ some (suc n) ];
  uuid = λ h. codes "u";
  name = λ h. codes "g";
  memory_total = λ h. 100;
  utilization_rates = λ h. err (codes "unsupported");
  memory_info = λ h. some (100, 7);
  temperature = λ h. none;
  power_usage = λ h. some 3000;
  power_management_limit = λ h. none;
}

abbrev running : Collector library whole
running = (init library whole (new_nvml_collector library whole)).1

init-IsConsistent_example : IsConsistent library whole (pos 4) running
unfolding init enumerate
init-IsConsistent_example =
    init-IsConsistent library whole (pos 4) (new_nvml_collector library whole) running refl
