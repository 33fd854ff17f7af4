-- ===== src/Core/Gpu.antt =====
-- llauncher/core/gpu.py: what nvidia-smi prints about the devices and their processes. Numbers are
-- read by an argument, as `_to_int` does with Python's float, and are not negative. Utilization,
-- temperature, the driver's version and the simulated output are left out. What the two other backends
-- give is an argument.
pub mod Attributed
use llauncher.Base.{
  ℕ, Bool, true, false, ◌&&◌, ◌||◌, not, Option, none, some, List, [], ◌∷◌, ◌++◌, map, contains,
  nat_eq, ◌==◌, if◌then◌else◌,
}
use llauncher.Base.Text.{Text, codes, text_eq}
use llauncher.Base.Lines.{strip, splitlines}
use llauncher.Base.Dict.{Dict, has_key}
use llauncher.Core.Settings.{split}
use llauncher.Util.Cache.{TtlCache, get, set, invalidate_all}

pub record GpuProcess : Type 0 where
  pub pid : ℕ
  pub name : Text
  pub used_memory_mb : ℕ

pub record GpuDevice : Type 0 where
  pub index : ℕ
  pub name : Text
  pub total_vram_mb : ℕ
  pub used_vram_mb : ℕ
  pub free_vram_mb : ℕ
  pub processes : List GpuProcess

pub record GpuHealthResult : Type 0 where
  pub backends : List Text
  pub devices : List GpuDevice

-- A line that is blank gives no row.
unless_blank : Text → List (List Text) → List (List Text)
unless_blank [] rows = rows
unless_blank (c ∷ line) rows = map strip (split b',' (c ∷ line)) ∷ rows

rows_of : List Text → List (List Text)
unfolding unless_blank
rows_of [] = []
rows_of (line ∷ lines) = unless_blank (strip line) (rows_of lines)

unfoldable pub csv_rows : Text → List (List Text)
unfolding rows_of
csv_rows text = rows_of (splitlines text)

-- The devices under their UUIDs, in the order of the rows.
abbrev pub Devices : Type 0
Devices = Dict Text GpuDevice

abbrev or_zero : Option ℕ → ℕ
or_zero none = 0
or_zero (some n) = n

module _ (to_int : Text → Option ℕ) where
  indexed_device : Option ℕ → Text → Text → Text → Text → Option GpuDevice
  indexed_device none name total used free = none
  indexed_device (some index) name total used free = some record {
    index = index;
    name = name;
    total_vram_mb = or_zero (to_int total);
    used_vram_mb = or_zero (to_int used);
    free_vram_mb = or_zero (to_int free);
    processes = [];
  }

  onto_devices : Text → Option GpuDevice → Devices → Devices
  onto_devices uuid none devices = devices
  onto_devices uuid (some device) devices = (uuid, device) ∷ devices

  -- A row that does not have nine fields, or no index, is skipped.
  unfoldable pub device_rows : List (List Text) → Devices
  unfolding indexed_device onto_devices
  device_rows [] = []
  device_rows
        ((index ∷ name ∷ uuid ∷ driver ∷ total ∷ used ∷ free ∷ utilization ∷ temperature ∷ [])
          ∷ rows) =
      onto_devices uuid (indexed_device (to_int index) name total used free) (device_rows rows)
  device_rows (_ ∷ rows) = device_rows rows

  -- The UUID and the process of a row of four fields with a pid and a name.
  named_process : Text → Option ℕ → Text → Text → Option (Text × GpuProcess)
  named_process uuid none name used = none
  named_process uuid (some pid) [] used = none
  named_process uuid (some pid) (c ∷ name) used =
      some (uuid, record { pid = pid; name = c ∷ name; used_memory_mb = or_zero (to_int used) })

  unfoldable pub process_row : List Text → Option (Text × GpuProcess)
  unfolding named_process
  process_row (uuid ∷ pid ∷ name ∷ used ∷ []) = named_process uuid (to_int pid) name used
  process_row _ = none

-- `dev.processes.append(...)`
abbrev pub with_process : GpuProcess → GpuDevice → GpuDevice
with_process p device = record device { processes = device.processes ++ p ∷ [] }

-- To the device of the UUID, the last one if there are several.
unfoldable pub attach : Text → GpuProcess → Devices → Devices
attach uuid p [] = []
attach uuid p ((key, device) ∷ devices) =
    let rest = attach uuid p devices in
    if has_key uuid devices
    then (key, device) ∷ rest
    else (if key == uuid then (key, with_process p device) ∷ devices else (key, device) ∷ devices)

unfoldable pub attach_row : Option (Text × GpuProcess) → Devices → Devices
unfolding attach
attach_row none devices = devices
attach_row (some (uuid, p)) devices = attach uuid p devices

unfoldable pub attach_rows : (Text → Option ℕ) → List (List Text) → Devices → Devices
unfolding process_row attach_row
attach_rows to_int [] devices = devices
attach_rows to_int (row ∷ rows) devices =
    attach_rows to_int rows (attach_row (process_row to_int row) devices)

-- The two outputs of nvidia-smi. A query that failed has no output.
pub record Outputs : Type 0 where
  pub device_csv : Option Text
  pub process_csv : Option Text

abbrev or_empty : Option Text → Text
or_empty none = []
or_empty (some text) = text

query_devices : (Text → Option ℕ) → Option Text → Text → Devices
unfolding csv_rows device_rows attach_rows
query_devices to_int none process_csv = []
query_devices to_int (some device_csv) process_csv =
    attach_rows to_int (csv_rows process_csv) (device_rows to_int (csv_rows device_csv))

unfoldable pub query_nvidia : (Text → Option ℕ) → Outputs → Devices
unfolding query_devices
query_nvidia to_int outputs = query_devices to_int outputs.device_csv (or_empty outputs.process_csv)

unfoldable pub filter_processes : List ℕ → List GpuProcess → List GpuProcess
filter_processes running [] = []
filter_processes running (p ∷ processes) =
    let rest = filter_processes running processes in
    if contains p.pid running then p ∷ rest else rest

-- `_map_processes`
unfoldable pub keep_running : List ℕ → GpuDevice → GpuDevice
unfolding filter_processes
keep_running running device = record device {
  processes = filter_processes running device.processes;
}

-- What a collection meets: the outputs of nvidia-smi, `none` if it is not there, not allowed or
-- timed out on the devices; the first other backend that answers; and the pids of
-- `find_all_llama_servers`.
pub record Machine : Type 0 where
  pub nvidia : Option Outputs
  pub other : Option (Text × List GpuDevice)
  pub running : List ℕ

abbrev pub devices_of : Devices → List GpuDevice
devices_of = map (λ d. d.1)

collect_other : Option (Text × List GpuDevice) → GpuHealthResult
collect_other none = record { backends = []; devices = [] }
collect_other (some (backend, devices)) = record { backends = backend ∷ []; devices = devices }

collect_devices :
    (Text → Option ℕ) → Option Outputs → Option (Text × List GpuDevice) → GpuHealthResult
unfolding query_nvidia collect_other
collect_devices to_int none other = collect_other other
collect_devices to_int (some outputs) other = record {
  backends = codes "nvidia" ∷ [];
  devices = devices_of (query_nvidia to_int outputs);
}

-- The result of `refresh`.
unfoldable pub refresh : (Text → Option ℕ) → Machine → GpuHealthResult
unfolding collect_devices keep_running
refresh to_int m =
    let health = collect_devices to_int m.nvidia m.other in
    record health { devices = map (keep_running m.running) health.devices }

abbrev pub HealthCache : Type 0
HealthCache = TtlCache Text GpuHealthResult

-- `refresh` empties the cache, and what it gives is kept.
requeried : ℕ → (Text → Option ℕ) → Machine → HealthCache → GpuHealthResult × HealthCache
unfolding refresh set invalidate_all
requeried now to_int m c =
    (refresh to_int m, set now (codes "gpu_health") (refresh to_int m) none (invalidate_all c))

or_requeried :
    ℕ
    → (Text → Option ℕ)
    → Machine
    → Option GpuHealthResult
    → HealthCache
    → GpuHealthResult × HealthCache
unfolding requeried
or_requeried now to_int m none c = requeried now to_int m c
or_requeried now to_int m (some cached) c = (cached, c)

unfoldable pub get_health :
    ℕ → Bool → (Text → Option ℕ) → Machine → HealthCache → GpuHealthResult × HealthCache
unfolding get requeried or_requeried
get_health now force_refresh to_int m c =
    if force_refresh
    then requeried now to_int m c
    else let cached = get now (codes "gpu_health") c in or_requeried now to_int m cached.0 cached.1
