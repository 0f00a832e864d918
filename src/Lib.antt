-- ===== src/Lib.antt =====
-- Verification of the Python tools of golem-riscv-sim that place a mesh of tiles on simulation
-- threads, check such placements, compare traffic audits and classify the progress of a simulation.
--
-- Partition: tools/analysis/generate-sculptor-sst-work-partition.py. The script reads a
-- materialization audit (Partition/Audit: the checks of generate_partition and the weights of tiles),
-- builds the graph of the mesh (Partition/Mesh: mesh_adjacency) with a weight on each link
-- (Partition/Generate: weigh_rows), places the tiles by longest processing time (Partition/Lpt:
-- initial_lpt_partition), and for each seed improves the placement by single moves (Partition/Refine:
-- refine_partition) and by swaps (Partition/Swap: refine_partition_swaps). Of the candidates it takes
-- the one with the least weighted cut (Partition/Generate: least_candidate). Partition/Cut has
-- weighted_edge_cut, edge_cut_count and swap_cut_delta. Partition/Account has the state that both
-- searches keep (assignments, loads, counts of active tiles) and its two updates. Partition/Steps is
-- the abstract view of both searches, written for this library and not a translation: the moves and
-- the swaps that are acceptable, each kind as a step relation, and trails of steps.
--
-- Threads: src/components/mordred/thread_placement.py (Threads/Split: partition_tiles,
-- Threads/Resolve: resolve_threads) and the loops of connect_mesh in
-- src/components/mordred/configuration.py that link the routers (Threads/Links), with the integer
-- checks of its MeshParameters (Threads/Mesh).
--
-- Validation: tools/analysis/validate-sculptor-sst-partition.py, the check of a placement that SST
-- reports (Validation/Lines: the regular expressions and the loop over lines, Validation/Check:
-- validate_partition).
--
-- Comparison: tools/analysis/compare-sculptor-materialization-audits.py (Comparison/U64: checked
-- arithmetic, Comparison/Histogram: parse_histogram, Comparison/Summary: summarize_direction and
-- combine_histograms, Comparison/Audit: parse_audit, Comparison/Verdict: compare_audits).
--
-- Progress: tools/analysis/classify-sculptor-sst-progress.py (Progress/Counters: the counters and
-- rows, Progress/Tiles: the loop of classify over the tiles, Progress/State: the accounting of DMA
-- requests and the state).
--
-- Packing: the audits of request packing in tools/compiler/validate-sculptor-materialization-audit.py
-- (Packing/Records: the fields of descriptors and segments, Packing/Histograms: checked arithmetic and
-- add_packed_sequence_histogram, Packing/Joins: is_canonical_input_run_join, Packing/Runs:
-- maximal_input_dma_run_audit, Packing/Affine: affine_segment_run_audit, Packing/Syntax:
-- split_top_level, on texts as lists of code points).
--
-- Common has shared lists, sums, integers, optional results, decimal numerals, texts and JSON values.
--
-- Numbers that the scripts require to be unsigned are natural numbers, a difference of them is an
-- integer. Python's integers do not wrap, so a bound of a u64 is a test. A dict is a list of its items
-- in order, a set of tiles a list without repetitions, a Counter a function. `none` stands for every
-- exception. The loops of the searches run for the numbers of rounds that the script has (100 and
-- 200), which are the fuel of refine_rounds and swap_rounds; split_until runs for as many rounds as
-- rectangles are missing, which is what the while loop of partition_tiles needs; pack_runs has the
-- number of descriptors as fuel, of which each round takes one at least.
--
-- Parameters: the order in which random.Random(seed) shuffles the tiles in each round, the test of a
-- load against the limit (a float in the script; the proofs use that a lower load passes if a higher
-- one does), the rank of the float sum of deviations in the key of candidates, what SST reports of
-- ranks and threads, the rows, logs and ages of the files of a simulation, and the tables of
-- descriptors and segments.
--
-- Not modelled: the clock and the latency of MeshParameters (floats), files, digests and written
-- reports, router statistics and profiles (their weights are arguments), the phase_aware path, the
-- parsing of progress rows and logs, the calls into SST, and the other tools of the repository.
pub mod Common
pub mod Partition
pub mod Comparison
pub mod Threads
pub mod Validation
pub mod Progress
pub mod Packing
