-- ===== src/Imm/Tests.antt =====
-- One value of the immediate data.
use aws_ofi_nccl.Base.{◌<◌, ◌^◌, ◌≡◌, refl, arith}
use aws_ofi_nccl.Imm.{
  get_comm_id_from_imm, get_seq_num_from_imm, get_num_seg_from_imm, get_rdma_write_imm_data,
}
use aws_ofi_nccl.Imm.Fields.{get_rdma_write_imm_data_lem}

value : get_rdma_write_imm_data 3 5 2 ≡ 536873989
unfolding get_rdma_write_imm_data
value = refl

get_rdma_write_imm_data_lem_example :
    let imm = get_rdma_write_imm_data 3 5 2 in
    (get_comm_id_from_imm imm ≡ 3)
    × (get_seq_num_from_imm imm ≡ 5)
    × (get_num_seg_from_imm imm ≡ 2)
    × (imm < 2 ^ 32)
get_rdma_write_imm_data_lem_example =
    get_rdma_write_imm_data_lem 3 5 2 (omega arith) (omega arith) (omega arith)
