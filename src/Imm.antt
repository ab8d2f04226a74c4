-- ===== src/Imm.antt =====
-- The immediate data of an RDMA write, in src/nccl_ofi_rdma.c and nccl_ofi_rdma.h: a sequence number
-- in the low 10 bits, a communicator ID in 18, and the number of segments in 4. All are `uint64_t`.
use Prim.Native.Nat.{bit_or}
use aws_ofi_nccl.Base.{ℕ, ◌+◌, ◌-◌, ◌*◌, ◌/◌, ◌%◌, ◌^◌, bit_and}
use aws_ofi_nccl.Math.{word}
pub mod Fields
mod Tests

abbrev pub seq_bits : ℕ
seq_bits = 10

abbrev pub comm_id_bits : ℕ
comm_id_bits = 18

abbrev pub num_num_seg_bits : ℕ
num_num_seg_bits = 4

-- COMM_ID_MASK, MSG_SEQ_NUM_MASK and MSG_NUM_SEG_MASK
abbrev pub comm_id_mask : ℕ
comm_id_mask = 2 ^ comm_id_bits - 1

abbrev pub msg_seq_num_mask : ℕ
msg_seq_num_mask = 2 ^ seq_bits - 1

abbrev pub msg_num_seg_mask : ℕ
msg_num_seg_mask = 2 ^ num_num_seg_bits - 1

-- GET_COMM_ID_FROM_IMM, GET_SEQ_NUM_FROM_IMM and GET_NUM_SEG_FROM_IMM
pub get_comm_id_from_imm : ℕ → ℕ
get_comm_id_from_imm imm = bit_and (imm / 2 ^ seq_bits) comm_id_mask

pub get_seq_num_from_imm : ℕ → ℕ
get_seq_num_from_imm imm = bit_and imm msg_seq_num_mask

pub get_num_seg_from_imm : ℕ → ℕ
get_num_seg_from_imm imm = bit_and (imm / 2 ^ (seq_bits + comm_id_bits)) msg_num_seg_mask

-- GET_RDMA_WRITE_IMM_DATA
pub get_rdma_write_imm_data : ℕ → ℕ → ℕ → ℕ
get_rdma_write_imm_data comm_id seq nseg =
    bit_or (bit_or seq ((comm_id * 2 ^ seq_bits) % word))
      ((nseg * 2 ^ (seq_bits + comm_id_bits)) % word)
