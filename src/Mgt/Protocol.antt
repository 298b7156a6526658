-- ===== src/Mgt/Protocol.antt =====
-- The constants of inc/mgt.h.
use ece_lib.Base.{ℕ}

-- `enum edge_mgt_status`
abbrev pub edge_status_offline : ℕ
edge_status_offline = 0

abbrev pub edge_status_online : ℕ
edge_status_online = 1

-- `enum edge_mgt_function`
abbrev pub edge_func_off : ℕ
edge_func_off = 0

abbrev pub edge_func_on : ℕ
edge_func_on = 1

-- `enum edge_up_mode`
abbrev pub edge_up_mode_attr : ℕ
edge_up_mode_attr = 0

abbrev pub edge_up_mode_attr_periodic : ℕ
edge_up_mode_attr_periodic = 1

abbrev pub edge_up_mode_pkt : ℕ
edge_up_mode_pkt = 2

-- `enum edge_mgt_protocol_type`
abbrev pub edge_pro_hello : ℕ
edge_pro_hello = 0

abbrev pub edge_pro_ack : ℕ
edge_pro_ack = 1

abbrev pub edge_pro_pdt_add : ℕ
edge_pro_pdt_add = 2

abbrev pub edge_pro_pdt_del : ℕ
edge_pro_pdt_del = 3

abbrev pub edge_pro_g1_fmt_add : ℕ
edge_pro_g1_fmt_add = 4

abbrev pub edge_pro_g1_fmt_del : ℕ
edge_pro_g1_fmt_del = 5

abbrev pub edge_pro_g1_token_add : ℕ
edge_pro_g1_token_add = 6

abbrev pub edge_pro_g1_token_del : ℕ
edge_pro_g1_token_del = 7

abbrev pub edge_pro_dev_add : ℕ
edge_pro_dev_add = 8

abbrev pub edge_pro_dev_del : ℕ
edge_pro_dev_del = 9

abbrev pub edge_pro_pkt : ℕ
edge_pro_pkt = 10

abbrev pub edge_pro_butt : ℕ
edge_pro_butt = 11
