-- ===== src/Progress/Counters/Names.antt =====
-- The positions of the counters of classify-sculptor-sst-progress.py tell them apart.
use golem_riscv_sim.Common.{get_or, ◌++◌, ==_self, ap, arith, refl, sym, true, ℕ, ◌∙◌, ◌≡◌}
use golem_riscv_sim.Progress.Counters.{
  activity_counters, architectural_counters, pending_counters, Counter, analog_commands_completed,
  analog_commands_submitted, bridge_receive_bursts, cpu_cycles, instructions, network_packets,
  network_words, pending_completed_receive_frames, pending_global_dma,
  pending_incoming_frame_assemblies, pending_memory, pending_network_receives,
  pending_ready_receive_bursts, pending_receive_dma, pending_receive_dma_descriptors,
  physical_global_dma_completed, physical_global_dma_submitted, position, receive_dma_transfers,
  same_counter, simulation_tick, synchronization_events, synchronization_grants, task_finish_events,
}

abbrev counter_at : ℕ → Counter
counter_at i =
    get_or (activity_counters ++ architectural_counters ++ pending_counters) i pending_memory

counter_at-position : (c : Counter) → counter_at (position c) ≡ c
counter_at-position simulation_tick = refl
counter_at-position instructions = refl
counter_at-position cpu_cycles = refl
counter_at-position synchronization_events = refl
counter_at-position synchronization_grants = refl
counter_at-position task_finish_events = refl
counter_at-position physical_global_dma_submitted = refl
counter_at-position physical_global_dma_completed = refl
counter_at-position analog_commands_submitted = refl
counter_at-position analog_commands_completed = refl
counter_at-position network_packets = refl
counter_at-position network_words = refl
counter_at-position receive_dma_transfers = refl
counter_at-position pending_network_receives = refl
counter_at-position pending_receive_dma = refl
counter_at-position pending_receive_dma_descriptors = refl
counter_at-position pending_completed_receive_frames = refl
counter_at-position pending_ready_receive_bursts = refl
counter_at-position pending_incoming_frame_assemblies = refl
counter_at-position bridge_receive_bursts = refl
counter_at-position pending_global_dma = refl
counter_at-position pending_memory = refl

pub same_counter-eq : (a b : Counter) → same_counter a b ≡ true → a ≡ b
same_counter-eq a b h =
    let same : position a ≡ position b = ground arith in
    sym (counter_at-position a) ∙ ap counter_at same ∙ counter_at-position b

pub same_counter_self : (a : Counter) → same_counter a a ≡ true
same_counter_self a = ==_self (position a)
