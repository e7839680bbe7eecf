-- ===== src/Examples/Orders.antt =====
-- Order ids.
use nano_net_ull.Base.{◌≡◌, arith}
use nano_net_ull.Order.{cl_ord_id}
use nano_net_ull.Order.Layout.{cl_ord_id_repeats}

cl_ord_id_repeats_example : cl_ord_id 1700000000123456789 ≡ cl_ord_id 1700000000129999999
cl_ord_id_repeats_example =
    cl_ord_id_repeats 1700000000123456789 1700000000129999999 (omega arith) (omega arith)
      (omega arith)
