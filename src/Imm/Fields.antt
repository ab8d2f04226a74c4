-- ===== src/Imm/Fields.antt =====
-- The three fields of the immediate data do not overlap.
use Prim.Native.Nat.{bit_or}
use aws_ofi_nccl.Base.{
  ℕ, zero, suc, ◌+◌, ◌*◌, ◌/◌, ◌%◌, ◌^◌, ◌<◌, ◌≡◌, ap, ◌∙◌, arith, bit_and_mask, two_pow-suc,
}
use aws_ofi_nccl.Base.Digits.{bit_or_step, zero-bit_or}
use aws_ofi_nccl.Math.{word}
use aws_ofi_nccl.Imm.{
  seq_bits, comm_id_bits, num_num_seg_bits, get_comm_id_from_imm, get_seq_num_from_imm,
  get_num_seg_from_imm, get_rdma_write_imm_data,
}

mul_two : (y p : ℕ) → y * (2 * p) ≡ 2 * (y * p)
mul_two y p = grind arith

-- An or with a number shifted past the other one is a sum.
pub bit_or_shifted : (k x y : ℕ) → x < 2 ^ k → bit_or x (y * 2 ^ k) ≡ x + y * 2 ^ k
bit_or_shifted zero x y h =
    let z : x ≡ 0 = omega arith in
    let one : y * 2 ^ 0 ≡ y = omega arith in rw (z, one) (zero-bit_or y ∙ omega arith)
bit_or_shifted (suc k) x y h =
    let double : y * 2 ^ suc k ≡ 2 * (y * 2 ^ k) =
      ap (λ t. y * t) (two_pow-suc k) ∙ mul_two y (2 ^ k) in
    let half : y * 2 ^ suc k / 2 ≡ y * 2 ^ k = omega (arith, double) in
    let rest = bit_or_shifted k (x / 2) y (omega (arith, two_pow-suc k)) in
    let step = bit_or_step x (y * 2 ^ suc k) in
    let moved = ap (bit_or (x / 2)) half in omega (arith, step, moved, rest, double)

-- For a communicator ID of 18 bits, a sequence number of 10 and a number of segments of 4, each is
-- read back from the immediate data that GET_RDMA_WRITE_IMM_DATA builds, which has 32 bits.
pub get_rdma_write_imm_data_lem :
    (comm_id seq nseg : ℕ)
    → comm_id < 2 ^ comm_id_bits
    → seq < 2 ^ seq_bits
    → nseg < 2 ^ num_num_seg_bits
    → let imm = get_rdma_write_imm_data comm_id seq nseg in
      (get_comm_id_from_imm imm ≡ comm_id)
      × (get_seq_num_from_imm imm ≡ seq)
      × (get_num_seg_from_imm imm ≡ nseg)
      × (imm < 2 ^ 32)
unfolding get_rdma_write_imm_data get_comm_id_from_imm get_seq_num_from_imm get_num_seg_from_imm
get_rdma_write_imm_data_lem comm_id seq nseg hc hs hn =
    let small : comm_id * 2 ^ 10 % word ≡ comm_id * 2 ^ 10 = omega arith in
    let large : nseg * 2 ^ 28 % word ≡ nseg * 2 ^ 28 = omega arith in
    let low : bit_or seq (comm_id * 2 ^ 10) ≡ seq + comm_id * 2 ^ 10 =
      bit_or_shifted 10 seq comm_id hs in
    let all : bit_or (seq + comm_id * 2 ^ 10) (nseg * 2 ^ 28)
        ≡ seq + comm_id * 2 ^ 10 + nseg * 2 ^ 28 =
      bit_or_shifted 28 (seq + comm_id * 2 ^ 10) nseg (omega arith) in
    let d = seq + comm_id * 2 ^ 10 + nseg * 2 ^ 28 in
    rw (small, large, low, all)
      (
        bit_and_mask 18 (d / 2 ^ 10) ∙ omega arith,
        bit_and_mask 10 d ∙ omega arith,
        bit_and_mask 4 (d / 2 ^ 28) ∙ omega arith,
        omega arith,
      )
