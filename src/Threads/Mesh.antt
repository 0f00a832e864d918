-- ===== src/Threads/Mesh.antt =====
-- The integer checks of MeshParameters in configuration.py; `none` is a ValueError.
use golem_riscv_sim.Common.Json.{int, Json}
use golem_riscv_sim.Common.{
  Option, guard, if◌then◌else◌, leb, ltb, none, pos, refuse, some, ℕ, ◌%◌, ◌&&◌, ◌*◌, ◌+◌, ◌-◌, ◌/◌,
  ◌==◌, ◌>>=◌, ◌>>◌, ◌^◌,
}
pub mod Bounds

abbrev pub uint32_max : ℕ
uint32_max = 2 ^ 32 - 1

abbrev pub int32_max : ℕ
int32_max = 2 ^ 31 - 1

abbrev pub int16_max : ℕ
int16_max = 2 ^ 15 - 1

-- _integer, for bounds that are not negative; it returns the value here.
unfoldable pub integer : Json → ℕ → ℕ → Option ℕ
integer (int (pos value)) minimum maximum =
    if leb minimum value && leb value maximum then some value else none
integer _ minimum maximum = none

-- The integer fields as they are given.
pub record MeshFields : Type 0 where
  pub x_dim : Json
  pub y_dim : Json
  pub local_ports : Json
  pub num_vns : Json
  pub num_vcs : Json
  pub flit_size_bits : Json
  pub router_input_buffer_flits : Json
  pub router_output_buffer_flits : Json
  pub nic_input_buffer_bytes : Json
  pub nic_output_buffer_bytes : Json
  pub verbose : Json

pub record MeshParameters : Type 0 where
  pub x_dim : ℕ
  pub y_dim : ℕ
  pub local_ports : ℕ
  pub num_vns : ℕ
  pub num_vcs : ℕ
  pub flit_size_bits : ℕ
  pub router_input_buffer_flits : ℕ
  pub router_output_buffer_flits : ℕ
  pub nic_input_buffer_bytes : ℕ
  pub nic_output_buffer_bytes : ℕ
  pub verbose : ℕ

abbrev pub router_count : MeshParameters → ℕ
router_count m = m.x_dim * m.y_dim

abbrev pub endpoint_count : MeshParameters → ℕ
endpoint_count m = router_count m * m.local_ports

-- The body of the loop over the two NIC buffers.
unfoldable pub nic_buffer : Json → ℕ → Option ℕ
unfolding integer
nic_buffer value flit_size_bits = do
  bytes ← integer value 1 ((2 ^ 63 - 1) / 8)
  let bits = bytes * 8
  guard (bits % flit_size_bits == 0)
  guard (leb 1 (bits / flit_size_bits) && leb (bits / flit_size_bits) int32_max)
  some bytes

-- The fields that are checked first.
pub record Dimensions : Type 0 where
  pub x_dim : ℕ
  pub y_dim : ℕ
  pub local_ports : ℕ
  pub num_vns : ℕ
  pub num_vcs : ℕ
  pub flit_size_bits : ℕ
  pub verbose : ℕ

unfoldable pub check_dimensions : MeshFields → Option Dimensions
unfolding integer
check_dimensions f = do
  x_dim ← integer f.x_dim 1 uint32_max
  y_dim ← integer f.y_dim 1 uint32_max
  local_ports ← integer f.local_ports 1 uint32_max
  num_vcs ← integer f.num_vcs 1 uint32_max
  flit_size_bits ← integer f.flit_size_bits 1 uint32_max
  num_vns ← integer f.num_vns 1 1
  verbose ← integer f.verbose 0 uint32_max
  refuse (ltb (int32_max + 1) (x_dim * y_dim * local_ports))
  refuse (ltb (uint32_max - 4) local_ports)
  guard (flit_size_bits % 8 == 0)
  some (record {
    x_dim = x_dim;
    y_dim = y_dim;
    local_ports = local_ports;
    num_vns = num_vns;
    num_vcs = num_vcs;
    flit_size_bits = flit_size_bits;
    verbose = verbose;
  })

-- The two router buffers.
unfoldable pub router_buffers : MeshFields → ℕ → Option (ℕ × ℕ)
unfolding integer
router_buffers f flit_size_bits = do
  input_flits ← integer f.router_input_buffer_flits 1 int32_max
  output_flits ← integer f.router_output_buffer_flits 1 int16_max
  refuse (ltb uint32_max (input_flits * flit_size_bits))
  refuse (ltb uint32_max (output_flits * flit_size_bits))
  some (input_flits, output_flits)

unfoldable pub nic_buffers : MeshFields → ℕ → Option (ℕ × ℕ)
unfolding nic_buffer
nic_buffers f flit_size_bits = do
  nic_input ← nic_buffer f.nic_input_buffer_bytes flit_size_bits
  nic_output ← nic_buffer f.nic_output_buffer_bytes flit_size_bits
  refuse (ltb (nic_output * 8) (2 * flit_size_bits))
  some (nic_input, nic_output)

-- __post_init__ without the two quantities at its end.
unfoldable pub post_init : MeshFields → Option MeshParameters
unfolding check_dimensions router_buffers nic_buffers
post_init f = do
  d ← check_dimensions f
  router ← router_buffers f d.flit_size_bits
  nic ← nic_buffers f d.flit_size_bits
  some (record {
    x_dim = d.x_dim;
    y_dim = d.y_dim;
    local_ports = d.local_ports;
    num_vns = d.num_vns;
    num_vcs = d.num_vcs;
    flit_size_bits = d.flit_size_bits;
    router_input_buffer_flits = router.0;
    router_output_buffer_flits = router.1;
    nic_input_buffer_bytes = nic.0;
    nic_output_buffer_bytes = nic.1;
    verbose = d.verbose;
  })
