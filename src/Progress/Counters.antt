-- ===== src/Progress/Counters.antt =====
-- The counters and the rows of classify-sculptor-sst-progress.py.
pub mod Names
use golem_riscv_sim.Common.{
  Bool, List, Option, [], false, if◌then◌else◌, none, some, true, ℕ, ◌-◌, ◌==◌, ◌^◌, ◌∷◌,
}

pub data Counter : Type 0 where
  task_finish_events physical_global_dma_submitted physical_global_dma_completed : Counter
  analog_commands_submitted analog_commands_completed : Counter
  network_packets network_words receive_dma_transfers : Counter
  simulation_tick instructions cpu_cycles : Counter
  synchronization_events synchronization_grants : Counter
  pending_network_receives pending_receive_dma pending_receive_dma_descriptors : Counter
  pending_completed_receive_frames pending_ready_receive_bursts : Counter
  pending_incoming_frame_assemblies bridge_receive_bursts : Counter
  pending_global_dma pending_memory : Counter

-- The position in REQUIRED_COUNTERS.
abbrev pub position : Counter → ℕ
position simulation_tick = 0
position instructions = 1
position cpu_cycles = 2
position synchronization_events = 3
position synchronization_grants = 4
position task_finish_events = 5
position physical_global_dma_submitted = 6
position physical_global_dma_completed = 7
position analog_commands_submitted = 8
position analog_commands_completed = 9
position network_packets = 10
position network_words = 11
position receive_dma_transfers = 12
position pending_network_receives = 13
position pending_receive_dma = 14
position pending_receive_dma_descriptors = 15
position pending_completed_receive_frames = 16
position pending_ready_receive_bursts = 17
position pending_incoming_frame_assemblies = 18
position bridge_receive_bursts = 19
position pending_global_dma = 20
position pending_memory = 21

abbrev pub same_counter : Counter → Counter → Bool
same_counter a b = position a == position b

abbrev pub architectural_counters : List Counter
architectural_counters =
    task_finish_events ∷ physical_global_dma_submitted ∷ physical_global_dma_completed
    ∷ analog_commands_submitted ∷ analog_commands_completed ∷ network_packets ∷ network_words
    ∷ receive_dma_transfers ∷ []

abbrev pub activity_counters : List Counter
activity_counters =
    simulation_tick ∷ instructions ∷ cpu_cycles ∷ synchronization_events ∷ synchronization_grants
    ∷ []

abbrev pub pending_counters : List Counter
pending_counters =
    pending_network_receives ∷ pending_receive_dma ∷ pending_receive_dma_descriptors
    ∷ pending_completed_receive_frames ∷ pending_ready_receive_bursts
    ∷ pending_incoming_frame_assemblies ∷ bridge_receive_bursts ∷ pending_global_dma
    ∷ pending_memory ∷ []

-- A row of a progress file. The columns that old files lack are optional.
pub record Row : Type 0 where
  pub value : Counter → ℕ
  pub wait_reason : ℕ
  pub local_epoch : ℕ
  pub task_finish_events_available : Option ℕ
  pub local_epoch_available : Option ℕ
  pub memory_initialization_complete : Option ℕ

-- INVALID_U32
abbrev pub invalid_u32 : ℕ
invalid_u32 = 2 ^ 32 - 1

-- The last two rows of a tile, or its only one.
pub record Sample : Type 0 where
  pub tile : ℕ
  pub latest : Row
  pub previous : Option Row

-- A number that must be zero or one; `none` is an EvidenceError.
unfoldable pub as_flag : ℕ → Option Bool
as_flag value = if value == 1 then some true else if value == 0 then some false else none

unfoldable pub availability : Option ℕ → Bool → Option Bool
unfolding as_flag
availability none inferred = some inferred
availability (some value) inferred = as_flag value
