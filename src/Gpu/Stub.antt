-- ===== src/Gpu/Stub.antt =====
-- stub_collector.go and the interface of collector.go that the module drives.
use workstation_probe.Common.{Bool, false, [], Bytes, codes}
use workstation_probe.Common.Time.{Time}
use workstation_probe.Common.Float.{Float64}
use workstation_probe.Gpu.{Sample, ProfileInfo}

-- `Collector`: the state of an implementation and its methods.
pub record Collector (f : Float64) : Type 1 where
  pub State : Type 0
  pub init : State → (Bool × Bytes) × State
  pub shutdown : State → State
  pub profile : State → ProfileInfo
  pub collect : Time → State → Sample f

module _ (f : Float64) where
  -- The methods of `nopCollector`, whose state is its reason.
  abbrev pub nop_collector : Collector f
  nop_collector = record {
    State = Bytes;
    init = λ reason. ((false, reason), reason);
    shutdown = λ reason. reason;
    profile = λ reason. record { disabled_reason = reason; device_count = 0; devices = [] };
    collect = λ now reason. record { timestamp = now; devices = []; error = reason };
  }

-- `NewNVMLCollector` of the build without NVML.
abbrev pub stub_reason : Bytes
stub_reason = codes "nvml support not compiled in (rebuild with -tags nvml)"
