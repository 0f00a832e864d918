-- ===== src/Threads/Examples.antt =====
-- A mesh of three columns and two rows, and the theorems on it.
use golem_riscv_sim.Threads.Mesh.Bounds.{IsMesh, post_init-IsMesh}
use golem_riscv_sim.Threads.Mesh.{MeshFields, MeshParameters, post_init}
use golem_riscv_sim.Threads.Split.{partition_tiles}
use golem_riscv_sim.Partition.Mesh.{mesh_adjacency}
use golem_riscv_sim.Common.Json.{nil, int, array, cons, Items}
use golem_riscv_sim.Threads.Links.{has_link, router_links}
use golem_riscv_sim.Threads.Links.Adjacent.{router_links-eq-mesh_adjacency}
use golem_riscv_sim.Threads.Split.Workers.{IsSplit, partition_tiles-IsSplit}
use golem_riscv_sim.Threads.Resolve.{resolve_threads, resolve_threads-workers, worker_items}
use golem_riscv_sim.Common.{
  All, List, [], arith, contains, false, get_or, length, pos, refl, some, ℕ, ◌<◌, ◌||◌, ◌∷◌, ◌≡◌,
  ◌≤◌, ◌⊎◌,
}

partition_tiles-IsSplit_example :
    (placement : List ℕ) × (partition_tiles (int (pos 3)) (int (pos 2)) (int (pos 4))
      ≡ some placement)
    × IsSplit 3 2 4 placement
partition_tiles-IsSplit_example =
    partition_tiles-IsSplit 3 2 4 (omega arith) (omega arith) (omega arith) (omega arith)

abbrev three_workers : Items
three_workers = cons (int (pos 0)) (cons (int (pos 1)) (cons (int (pos 1)) nil))

abbrev ranks : ℕ
ranks = 1

abbrev threads : ℕ
threads = 2

abbrev workers : List ℕ
workers = 0 ∷ 1 ∷ 1 ∷ []

three_workers-accepted :
    resolve_threads ranks threads false 3 1 3 (some (array three_workers)) ≡ some (threads, workers)
unfolding resolve_threads
three_workers-accepted = refl

resolve_threads-workers_example :
    (ranks ≡ 1)
    × (threads ≡ threads)
    × (three_workers ≡ worker_items workers)
    × (length workers ≡ 3)
    × All (λ w. w < threads) workers
    × ((threads ≤ 1) ⊎ (false ≡ false))
resolve_threads-workers_example =
    resolve_threads-workers ranks threads false 3 1 3 three_workers three_workers-accepted

router_links-eq-mesh_adjacency_example :
    (has_link (router_links 3 2) 1 4 || has_link (router_links 3 2) 4 1)
    ≡ contains (get_or (mesh_adjacency 2 3) 1 []) 4
router_links-eq-mesh_adjacency_example =
    router_links-eq-mesh_adjacency 3 2 1 4 (omega arith) (omega arith)

-- The defaults of MeshParameters.
abbrev default_fields : MeshFields
default_fields = record {
  x_dim = int (pos 2);
  y_dim = int (pos 2);
  local_ports = int (pos 1);
  num_vns = int (pos 1);
  num_vcs = int (pos 1);
  flit_size_bits = int (pos 128);
  router_input_buffer_flits = int (pos 8);
  router_output_buffer_flits = int (pos 8);
  nic_input_buffer_bytes = int (pos 4096);
  nic_output_buffer_bytes = int (pos 4096);
  verbose = int (pos 0);
}

abbrev default_mesh : MeshParameters
default_mesh = record {
  x_dim = 2;
  y_dim = 2;
  local_ports = 1;
  num_vns = 1;
  num_vcs = 1;
  flit_size_bits = 128;
  router_input_buffer_flits = 8;
  router_output_buffer_flits = 8;
  nic_input_buffer_bytes = 4096;
  nic_output_buffer_bytes = 4096;
  verbose = 0;
}

default_fields-accepted : post_init default_fields ≡ some default_mesh
unfolding post_init
default_fields-accepted = refl

post_init-IsMesh_example : IsMesh default_mesh
post_init-IsMesh_example = post_init-IsMesh default_fields default_fields-accepted
