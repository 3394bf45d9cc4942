-- ===== src/Tests/Orders.antt =====
-- Applications of the theorems about fees (fiber/src/fiber/fee.rs) and the orders of the cross-chain
-- hub (fiber/src/cch/orders_db.rs).
use ai_ckb_backend.Common.{ℕ, ◌*◌, ◌≤◌, ◌<◌, ◌≡◌, ◌⊎◌, [], ◌∷◌, none, if◌then◌else◌, is_some}
use ai_ckb_backend.Common.BTreeMap.{Key_ord, get}
use ai_ckb_backend.Common.Outcome.{ok, err, u128_mod}
use ai_ckb_backend.Fee.{calculate_tlc_forward_fee, calculate_tlc_forward_fee_least}
use ai_ckb_backend.Cch.Orders.{
  SendBtcOrder, ReceiveBtcOrder, CchOrdersDb, Currency, CchOrderStatus, duplicated, not_found,
  insert_send_btc_order, update_send_btc_order, insert_receive_btc_order, update_receive_btc_order,
}
use ai_ckb_backend.Cch.Orders.Laws.{Sent, Received, send_btc_orders_lem, receive_btc_orders_lem}

calculate_tlc_forward_fee_least_example :
    ((u128_mod ≤ 1000 * 1001) × (calculate_tlc_forward_fee 1001 1000 ≡ err tt))
    ⊎ ((1000 * 1001 < u128_mod)
        × ((fee : ℕ) × (calculate_tlc_forward_fee 1001 1000 ≡ ok fee)
            × (1000 * 1001 ≤ fee * 1000000)
            × ((g : ℕ) → 1000 * 1001 ≤ g * 1000000 → fee ≤ g)))
calculate_tlc_forward_fee_least_example = calculate_tlc_forward_fee_least 1001 1000

abbrev sending : SendBtcOrder
sending = record {
  created_at = 1;
  expires_after = 3600;
  ckb_final_tlc_expiry_delta = 60;
  currency = Currency.fibt;
  wrapped_btc_type_script = 0;
  btc_pay_req = 1;
  ckb_pay_req = 2;
  payment_hash = 3;
  payment_preimage = none;
  channel_id = none;
  tlc_id = none;
  amount_sats = 100;
  fee_sats = 1;
  status = CchOrderStatus.pending;
}

abbrev receiving : ReceiveBtcOrder
receiving = record {
  created_at = 1;
  expires_after = 3600;
  ckb_final_tlc_expiry_delta = 60;
  wrapped_btc_type_script = 0;
  btc_pay_req = 1;
  payment_hash = 4;
  payment_preimage = none;
  channel_id = 7;
  tlc_id = none;
  amount_sats = 100;
  fee_sats = 1;
  status = CchOrderStatus.pending;
}

abbrev orders : CchOrdersDb
orders = record { send_btc_orders = (3, sending) ∷ []; receive_btc_orders = [] }

send_btc_orders_lem_example :
    ((insert_send_btc_order sending orders).0 ≡ (
      if is_some (get sending.payment_hash orders.send_btc_orders)
      then err (duplicated sending.payment_hash)
      else ok tt))
    × ((update_send_btc_order sending orders).0 ≡ (
        if is_some (get sending.payment_hash orders.send_btc_orders)
        then ok tt
        else err (not_found sending.payment_hash)))
    × Sent sending orders (insert_send_btc_order sending orders).1
    × Sent sending orders (update_send_btc_order sending orders).1
send_btc_orders_lem_example = send_btc_orders_lem sending orders

receive_btc_orders_lem_example :
    ((insert_receive_btc_order receiving orders).0 ≡ (
      if is_some (get receiving.payment_hash orders.receive_btc_orders)
      then err (duplicated receiving.payment_hash)
      else ok tt))
    × ((update_receive_btc_order receiving orders).0 ≡ (
        if is_some (get receiving.payment_hash orders.receive_btc_orders)
        then ok tt
        else err (not_found receiving.payment_hash)))
    × Received receiving orders (insert_receive_btc_order receiving orders).1
    × Received receiving orders (update_receive_btc_order receiving orders).1
receive_btc_orders_lem_example = receive_btc_orders_lem receiving orders
