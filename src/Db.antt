-- ===== src/Db.antt =====
-- The tables that the control plane's queries read, as lists of rows: hosts, VMs, GPUs and the
-- attachments of hosts to storage pools and networks (qarax/src/model). A row keeps the columns that
-- the modelled queries use. A UUID is its 128-bit number, a text is the list of its bytes, and sizes
-- are not negative.
use qarax.Base.{ℕ, Bool, true, false, Option, List, Text}
use qarax.VmConfig.{Json}

pub data HostStatus : Type 0 where
  unknown down installing installation_failed initializing maintenance up : HostStatus

pub data VmStatus : Type 0 where
  unknown pending created running paused shutdown migrating committing : VmStatus

pub data Hypervisor : Type 0 where
  cloud_hv firecracker : Hypervisor

pub HostStatus-discrete : Discrete HostStatus
HostStatus-discrete = hlevel

pub VmStatus-discrete : Discrete VmStatus
VmStatus-discrete = hlevel

abbrev pub Labels : Type 0
Labels = List (Text × Text)

-- `F` is the type of a load average, a double.
pub record Host (F : Type 0) : Type 0 where
  pub id : ℕ
  pub name : Text
  pub address : Text
  pub port : ℕ
  pub status : HostStatus
  pub reservation_class : Option Text
  pub placement_labels : Labels
  pub architecture : Option Text
  pub total_cpus : Option ℕ
  pub total_memory_bytes : Option ℕ
  pub available_memory_bytes : Option ℕ
  pub load_average : Option F
  pub disk_available_bytes : Option ℕ

pub record Vm : Type 0 where
  pub id : ℕ
  pub name : Text
  pub tags : List Text
  pub host_id : Option ℕ
  pub status : VmStatus
  pub hypervisor : Hypervisor
  pub boot_vcpus : ℕ
  pub memory_size : ℕ
  pub image_ref : Option Text
  pub config : Json

pub record HostGpu : Type 0 where
  pub id : ℕ
  pub host_id : ℕ
  pub pci_address : Text
  pub model : Option Text
  pub vendor : Option Text
  pub vram_bytes : Option ℕ
  pub vm_id : Option ℕ

pub record Db (F : Type 0) : Type 0 where
  pub hosts : List (Host F)
  pub vms : List Vm
  pub host_gpus : List HostGpu
  -- (host_id, storage_pool_id) and (host_id, network_id)
  pub host_storage_pools : List (ℕ × ℕ)
  pub host_networks : List (ℕ × ℕ)

abbrev pub is_up : HostStatus → Bool
is_up HostStatus.up = true
is_up _ = false

-- `status NOT IN ('SHUTDOWN', 'UNKNOWN')`
abbrev pub is_active : VmStatus → Bool
is_active VmStatus.shutdown = false
is_active VmStatus.unknown = false
is_active _ = true
