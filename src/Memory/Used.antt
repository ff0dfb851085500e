-- ===== src/Memory/Used.antt =====
-- The "used without reclaimable cache" figure.
use workstation_probe.Common.{ℕ, ◌+◌, ◌≤◌, ◌<◌, ◌≡◌, ◌⊎◌, arith}
use workstation_probe.Common.Float.{Float64}
use workstation_probe.Memory.{VirtualMemory, used_without_reclaimable}

module _ (f : Float64) (vm : VirtualMemory f) where
  abbrev used : ℕ
  used = used_without_reclaimable f vm

  -- Where the total and the free bytes are not 0, and free, buffers and cache together do not exceed
  -- the total, they and the figure add up to the total.
  pub used_without_reclaimable-breakdown :
      0 < vm.total_bytes
      → 0 < vm.free_bytes
      → vm.free_bytes + vm.buffers_bytes + vm.cached_bytes ≤ vm.total_bytes
      → used + vm.free_bytes + vm.buffers_bytes + vm.cached_bytes ≡ vm.total_bytes
  unfolding used_without_reclaimable
  used_without_reclaimable-breakdown h k l = ground arith

  -- The figure never exceeds the total, on every branch, where what gopsutil reports as used does
  -- not exceed it; so no subtraction of the source wraps around.
  pub used_without_reclaimable-le : vm.used_bytes ≤ vm.total_bytes → used ≤ vm.total_bytes
  unfolding used_without_reclaimable
  used_without_reclaimable-le h = ground arith

  -- Where the kernel's breakdown is missing or does not fit the total, and the available bytes fit
  -- it, the figure is the part of the total that is not available.
  pub used_without_reclaimable-available :
      (vm.free_bytes ≡ 0) ⊎ (vm.total_bytes < vm.free_bytes + vm.buffers_bytes + vm.cached_bytes)
      → 0 < vm.available_bytes
      → vm.available_bytes ≤ vm.total_bytes
      → used + vm.available_bytes ≡ vm.total_bytes
  unfolding used_without_reclaimable
  used_without_reclaimable-available h k l = ground arith
