-- ===== src/Threads/Mesh/Bounds.antt =====
-- What the machine integers of Mordred need of MeshParameters in configuration.py.
use golem_riscv_sim.Threads.Mesh.{
  Dimensions, check_dimensions, nic_buffers, router_buffers, MeshFields, post_init, MeshParameters,
  int16_max, int32_max, integer, nic_buffer, router_count, uint32_max,
}
use golem_riscv_sim.Common.{
  ltb, refuse, refuse-eq-some, ==_iff, >>=-eq-some, arith, guard, guard-eq-some, leb, pos, some,
  subst, suc, ℕ, ◌%◌, ◌&&◌, ◌*◌, ◌+◌, ◌-◌, ◌/◌, ◌<◌, ◌==◌, ◌^◌, ◌≡◌, ◌≤◌,
}
use golem_riscv_sim.Common.Json.{int, Json}
use mathlib.Core.Option.{some-injective}
use native.Mathlib.Nat.{mul-le-mul_right, div-add-mod'}

-- A buffer of whole flits, whose number is a positive signed 32-bit integer.
abbrev pub IsBuffer : ℕ → ℕ → Type 0
IsBuffer flit_size_bits bytes =
    (credits : ℕ) × (credits * flit_size_bits ≡ bytes * 8) × (1 ≤ credits) × (credits ≤ int32_max)

pub record IsMesh (m : MeshParameters) : Type 0 where
  pub endpoints :
      (router port : ℕ)
      → router < router_count m
      → port < m.local_ports
      → router * m.local_ports + port ≤ int32_max
  pub ports : m.local_ports + 4 ≤ uint32_max
  pub input_bits : m.router_input_buffer_flits * m.flit_size_bits ≤ uint32_max
  pub output_bits : m.router_output_buffer_flits * m.flit_size_bits ≤ uint32_max
  pub output_credits : m.router_output_buffer_flits ≤ int16_max
  pub nic_input : IsBuffer m.flit_size_bits m.nic_input_buffer_bytes
  pub nic_output : IsBuffer m.flit_size_bits m.nic_output_buffer_bytes
  pub packet : 2 * m.flit_size_bits ≤ m.nic_output_buffer_bytes * 8

integer_bounds :
    (value : Json) (minimum maximum : ℕ) {n : ℕ}
    → integer value minimum maximum ≡ some n
    → (minimum ≤ n) × (n ≤ maximum)
unfolding integer
integer_bounds (int (pos value)) minimum maximum {n} e = ground arith
integer_bounds _ minimum maximum {n} e = cc

nic_buffer-IsBuffer :
    (value : Json) (flit_size_bits : ℕ) {n : ℕ}
    → nic_buffer value flit_size_bits ≡ some n
    → IsBuffer flit_size_bits n
unfolding nic_buffer
nic_buffer-IsBuffer value flit {n} e =
    let (bytes, _, e1) = >>=-eq-some (integer value 1 ((2 ^ 63 - 1) / 8)) _ e in
    let bits = bytes * 8 in
    let (u1, whole, e2) = >>=-eq-some (guard (bits % flit == 0)) _ e1 in
    let range = leb 1 (bits / flit) && leb (bits / flit) int32_max in
    let (u2, ranged, e3) = >>=-eq-some (guard range) _ e2 in
    let test1 = guard-eq-some (bits % flit == 0) u1 whole in
    let test2 = guard-eq-some range u2 ranged in
    let parts = div-add-mod' bits flit in
    let exact : bits % flit ≡ 0 = (==_iff (bits % flit) 0).0 test1 in
    subst (IsBuffer flit) (some-injective bytes n e3)
      (bits / flit, omega (arith, parts, exact), ground arith, ground arith)

endpoint_below :
    (routers ports router port bound : ℕ)
    → routers * ports ≤ suc bound
    → router < routers
    → port < ports
    → router * ports + port ≤ bound
endpoint_below routers ports router port bound all hr hp =
    let rows = mul-le-mul_right ports hr in grind (arith, rows, all, hp)

not_above : (bound n : ℕ) (u : Unit {0}) → refuse (ltb bound n) ≡ some u → n ≤ bound
not_above bound n u h = let test = refuse-eq-some (ltb bound n) u h in ground arith

check_dimensions_bounds :
    (f : MeshFields) {d : Dimensions}
    → check_dimensions f ≡ some d
    → (d.x_dim * d.y_dim * d.local_ports ≤ int32_max + 1) × (d.local_ports ≤ uint32_max - 4)
unfolding check_dimensions
check_dimensions_bounds f {d} e =
    let (x, _, e1) = >>=-eq-some (integer f.x_dim 1 uint32_max) _ e in
    let (y, _, e2) = >>=-eq-some (integer f.y_dim 1 uint32_max) _ e1 in
    let (ports, _, e3) = >>=-eq-some (integer f.local_ports 1 uint32_max) _ e2 in
    let (vcs, _, e4) = >>=-eq-some (integer f.num_vcs 1 uint32_max) _ e3 in
    let (flit, _, e5) = >>=-eq-some (integer f.flit_size_bits 1 uint32_max) _ e4 in
    let (vns, _, e6) = >>=-eq-some (integer f.num_vns 1 1) _ e5 in
    let (verbose, _, e7) = >>=-eq-some (integer f.verbose 0 uint32_max) _ e6 in
    let (u1, t1, e8) = >>=-eq-some (refuse (ltb (int32_max + 1) (x * y * ports))) _ e7 in
    let (u2, t2, e9) = >>=-eq-some (refuse (ltb (uint32_max - 4) ports)) _ e8 in
    let (u3, t3, e10) = >>=-eq-some (guard (flit % 8 == 0)) _ e9 in
    subst
      (λ (q : Dimensions).
        (q.x_dim * q.y_dim * q.local_ports ≤ int32_max + 1) × (q.local_ports ≤ uint32_max - 4))
      (some-injective _ d e10)
      (not_above (int32_max + 1) (x * y * ports) u1 t1, not_above (uint32_max - 4) ports u2 t2)

router_buffers_bounds :
    (f : MeshFields) (flit : ℕ) {q : ℕ × ℕ}
    → router_buffers f flit ≡ some q
    → (q.0 * flit ≤ uint32_max) × (q.1 * flit ≤ uint32_max) × (q.1 ≤ int16_max)
unfolding router_buffers
router_buffers_bounds f flit {q} e =
    let (input, _, e1) = >>=-eq-some (integer f.router_input_buffer_flits 1 int32_max) _ e in
    let (output, fits, e2) = >>=-eq-some (integer f.router_output_buffer_flits 1 int16_max) _ e1 in
    let (u1, t1, e3) = >>=-eq-some (refuse (ltb uint32_max (input * flit))) _ e2 in
    let (u2, t2, e4) = >>=-eq-some (refuse (ltb uint32_max (output * flit))) _ e3 in
    subst (λ (r : ℕ × ℕ). (r.0 * flit ≤ uint32_max) × (r.1 * flit ≤ uint32_max) × (r.1 ≤ int16_max))
      (some-injective (input, output) q e4)
      (
        not_above uint32_max (input * flit) u1 t1,
        not_above uint32_max (output * flit) u2 t2,
        (integer_bounds f.router_output_buffer_flits 1 int16_max fits).1,
      )

nic_buffers_bounds :
    (f : MeshFields) (flit : ℕ) {q : ℕ × ℕ}
    → nic_buffers f flit ≡ some q
    → IsBuffer flit q.0 × IsBuffer flit q.1 × (2 * flit ≤ q.1 * 8)
unfolding nic_buffers
nic_buffers_bounds f flit {q} e =
    let (receive, b1, e1) = >>=-eq-some (nic_buffer f.nic_input_buffer_bytes flit) _ e in
    let (transmit, b2, e2) = >>=-eq-some (nic_buffer f.nic_output_buffer_bytes flit) _ e1 in
    let (u, t, e3) = >>=-eq-some (refuse (ltb (transmit * 8) (2 * flit))) _ e2 in
    subst (λ (r : ℕ × ℕ). IsBuffer flit r.0 × IsBuffer flit r.1 × (2 * flit ≤ r.1 * 8))
      (some-injective (receive, transmit) q e3)
      (
        nic_buffer-IsBuffer f.nic_input_buffer_bytes flit b1,
        nic_buffer-IsBuffer f.nic_output_buffer_bytes flit b2,
        not_above (transmit * 8) (2 * flit) u t,
      )

-- If the integer checks of MeshParameters accept its fields then the number of every local port
-- of every router is a signed 32-bit integer, local ports and four directions are a 32-bit
-- number, the bits of both router buffers too, router output credits are 16-bit, both NIC
-- buffers hold a whole number of flits from one to the greatest signed 32-bit integer, and the
-- transmit buffer holds two flits.
pub post_init-IsMesh : (f : MeshFields) {m : MeshParameters} → post_init f ≡ some m → IsMesh m
unfolding post_init
post_init-IsMesh f {m} e =
    let (d, checked, e1) = >>=-eq-some (check_dimensions f) _ e in
    let (router, routed, e2) = >>=-eq-some (router_buffers f d.flit_size_bits) _ e1 in
    let (nic, held, e3) = >>=-eq-some (nic_buffers f d.flit_size_bits) _ e2 in
    let (all, ports) = check_dimensions_bounds f checked in
    let (input, output, credits) = router_buffers_bounds f d.flit_size_bits routed in
    let (receive, transmit, packet) = nic_buffers_bounds f d.flit_size_bits held in
    subst IsMesh (some-injective _ m e3) (record {
      endpoints =
          λ router port. endpoint_below (d.x_dim * d.y_dim) d.local_ports router port int32_max all;
      ports = omega (arith, ports);
      input_bits = input;
      output_bits = output;
      output_credits = credits;
      nic_input = receive;
      nic_output = transmit;
      packet = packet;
    })
