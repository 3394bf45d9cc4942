-- ===== src/Cch/Orders/Laws.antt =====
-- What the operations of `CchOrdersDb` (fiber/src/cch/orders_db.rs) leave behind.
use ai_ckb_backend.Common.{◌≡◌, refl, arith, if◌then◌else◌, is_some, ◌==◌}
use ai_ckb_backend.Common.BTreeMap.{Key_ord, get, insert, get-insert}
use ai_ckb_backend.Common.Outcome.{ok, err}
use ai_ckb_backend.Cch.Orders.{
  Text, SendBtcOrder, ReceiveBtcOrder, duplicated, not_found, CchOrdersDb, insert_send_btc_order,
  get_send_btc_order, update_send_btc_order, insert_receive_btc_order, get_receive_btc_order,
  update_receive_btc_order,
}

-- The database `after` finds this order under its hash and is `before` everywhere else.
pub record Sent (order : SendBtcOrder) (before after : CchOrdersDb) : Type 0 where
  pub sent :
      (h : Text)
      → get_send_btc_order h after
        ≡ (if h == order.payment_hash then ok order else get_send_btc_order h before)
  pub receives : (h : Text) → get_receive_btc_order h after ≡ get_receive_btc_order h before

pub record Received (order : ReceiveBtcOrder) (before after : CchOrdersDb) : Type 0 where
  pub received :
      (h : Text)
      → get_receive_btc_order h after
        ≡ (if h == order.payment_hash then ok order else get_receive_btc_order h before)
  pub sends : (h : Text) → get_send_btc_order h after ≡ get_send_btc_order h before

inserted-Sent :
    (order : SendBtcOrder) (db : CchOrdersDb)
    → Sent order db
        (record db { send_btc_orders = insert order.payment_hash order db.send_btc_orders })
unfolding get_send_btc_order get_receive_btc_order
inserted-Sent order db = record {
  sent = λ h. ground (arith, get-insert h order.payment_hash order db.send_btc_orders);
  receives = λ h. refl;
}

-- Inserting a send order fails exactly if its hash is there, and updating one exactly if it is not;
-- but whatever the result, both leave the order under its hash and every other order as it was.
pub send_btc_orders_lem :
    (order : SendBtcOrder) (db : CchOrdersDb)
    → ((insert_send_btc_order order db).0 ≡ (
        if is_some (get order.payment_hash db.send_btc_orders)
        then err (duplicated order.payment_hash)
        else ok tt))
      × ((update_send_btc_order order db).0 ≡ (
          if is_some (get order.payment_hash db.send_btc_orders)
          then ok tt
          else err (not_found order.payment_hash)))
      × Sent order db (insert_send_btc_order order db).1
      × Sent order db (update_send_btc_order order db).1
unfolding insert_send_btc_order update_send_btc_order
send_btc_orders_lem order db =
    (ground arith, ground arith, inserted-Sent order db, inserted-Sent order db)

inserted-Received :
    (order : ReceiveBtcOrder) (db : CchOrdersDb)
    → Received order db
        (record db { receive_btc_orders = insert order.payment_hash order db.receive_btc_orders })
unfolding get_send_btc_order get_receive_btc_order
inserted-Received order db = record {
  received = λ h. ground (arith, get-insert h order.payment_hash order db.receive_btc_orders);
  sends = λ h. refl;
}

-- Inserting a receive order fails exactly if its hash is there, and updating one exactly if it is not;
-- but whatever the result, both leave the order under its hash and every other order as it was.
pub receive_btc_orders_lem :
    (order : ReceiveBtcOrder) (db : CchOrdersDb)
    → ((insert_receive_btc_order order db).0 ≡ (
        if is_some (get order.payment_hash db.receive_btc_orders)
        then err (duplicated order.payment_hash)
        else ok tt))
      × ((update_receive_btc_order order db).0 ≡ (
          if is_some (get order.payment_hash db.receive_btc_orders)
          then ok tt
          else err (not_found order.payment_hash)))
      × Received order db (insert_receive_btc_order order db).1
      × Received order db (update_receive_btc_order order db).1
unfolding insert_receive_btc_order update_receive_btc_order
receive_btc_orders_lem order db =
    (ground arith, ground arith, inserted-Received order db, inserted-Received order db)
