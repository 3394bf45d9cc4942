-- ===== src/Cch/Orders.antt =====
-- `CchOrdersDb` of fiber/src/cch/orders_db.rs, with the orders of fiber/src/cch/order.rs and the errors
-- of fiber/src/cch/error.rs. A text is a number: the code uses only its equality here.
pub mod Laws
use ai_ckb_backend.Common.{ℕ, List, [], Option, some, none}
use ai_ckb_backend.Common.BTreeMap.{Key_ord, get, insert}
use ai_ckb_backend.Common.Outcome.{Outcome, ok, err}
use ai_ckb_backend.Tlc.Info.{Hash256}

abbrev pub Text : Type 0
Text = ℕ

pub data CchOrderStatus : Type 0 where
  pending accepted in_flight succeeded failed : CchOrderStatus

-- `Currency` of fiber/src/invoice/invoice_impl.rs.
pub data Currency : Type 0 where
  fibb fibt fibd : Currency

pub record SendBtcOrder : Type 0 where
  pub created_at : ℕ  -- u64
  pub expires_after : ℕ  -- u64
  pub ckb_final_tlc_expiry_delta : ℕ  -- u64
  pub currency : Currency
  pub wrapped_btc_type_script : ℕ
  pub btc_pay_req : Text
  pub ckb_pay_req : Text
  pub payment_hash : Text
  pub payment_preimage : Option Text
  pub channel_id : Option Hash256
  pub tlc_id : Option ℕ  -- u64
  pub amount_sats : ℕ  -- u128
  pub fee_sats : ℕ  -- u128
  pub status : CchOrderStatus

pub record ReceiveBtcOrder : Type 0 where
  pub created_at : ℕ  -- u64
  pub expires_after : ℕ  -- u64
  pub ckb_final_tlc_expiry_delta : ℕ  -- u64
  pub wrapped_btc_type_script : ℕ
  pub btc_pay_req : Text
  pub payment_hash : Text
  pub payment_preimage : Option Text
  pub channel_id : Hash256
  pub tlc_id : Option ℕ  -- u64
  pub amount_sats : ℕ  -- u128
  pub fee_sats : ℕ  -- u128
  pub status : CchOrderStatus

pub data CchDbError : Type 0 where
  duplicated not_found : Text → CchDbError

pub record CchOrdersDb : Type 0 where
  pub send_btc_orders : List (Text × SendBtcOrder)
  pub receive_btc_orders : List (Text × ReceiveBtcOrder)

-- A call with `&mut self`: its result, and the database after it, also when the result is an error.
abbrev pub Call : Type 0 → Type 0
Call A = Outcome CchDbError A × CchOrdersDb

-- The match of the `insert` operations on what the map had.
abbrev pub inserted : {V : Type 0} → Text → Option V → Outcome CchDbError (Unit {0})
inserted key (some old) = err (duplicated key)
inserted key none = ok tt

-- The match of the `update` operations.
abbrev pub updated : {V : Type 0} → Text → Option V → Outcome CchDbError (Unit {0})
updated key (some old) = ok tt
updated key none = err (not_found key)

-- `ok_or_else` of the `get` operations.
abbrev pub found : {V : Type 0} → Text → Option V → Outcome CchDbError V
found key (some order) = ok order
found key none = err (not_found key)

unfoldable pub insert_send_btc_order : SendBtcOrder → CchOrdersDb → Call (Unit {0})
insert_send_btc_order order db =
    let key = order.payment_hash in
    (
      inserted key (get key db.send_btc_orders),
      record db { send_btc_orders = insert key order db.send_btc_orders },
    )

unfoldable pub get_send_btc_order : Text → CchOrdersDb → Outcome CchDbError SendBtcOrder
get_send_btc_order payment_hash db = found payment_hash (get payment_hash db.send_btc_orders)

unfoldable pub update_send_btc_order : SendBtcOrder → CchOrdersDb → Call (Unit {0})
update_send_btc_order order db =
    let key = order.payment_hash in
    (
      updated key (get key db.send_btc_orders),
      record db { send_btc_orders = insert key order db.send_btc_orders },
    )

unfoldable pub insert_receive_btc_order : ReceiveBtcOrder → CchOrdersDb → Call (Unit {0})
insert_receive_btc_order order db =
    let key = order.payment_hash in
    (
      inserted key (get key db.receive_btc_orders),
      record db { receive_btc_orders = insert key order db.receive_btc_orders },
    )

unfoldable pub get_receive_btc_order : Text → CchOrdersDb → Outcome CchDbError ReceiveBtcOrder
get_receive_btc_order payment_hash db = found payment_hash (get payment_hash db.receive_btc_orders)

unfoldable pub update_receive_btc_order : ReceiveBtcOrder → CchOrdersDb → Call (Unit {0})
update_receive_btc_order order db =
    let key = order.payment_hash in
    (
      updated key (get key db.receive_btc_orders),
      record db { receive_btc_orders = insert key order db.receive_btc_orders },
    )
