-- ===== src/Order/Data.antt =====
-- The records that an order import reads and writes: the fields that models/sale_order.py adds to
-- `sale.order` and `sale.order.line`, and those of Odoo's own that the code reads.
use cartona_odoo.Base.{ℕ, String, Bool, true, false, Option, none, some, List}
use cartona_odoo.Py.Json.{Json, null, bool, Python, str_json}

pub data OrderState : Type 0 where
  draft sent sale done cancel : OrderState

pub data SyncStatus : Type 0 where
  not_synced syncing synced error : SyncStatus

pub data PickingState : Type 0 where
  draft waiting confirmed assigned done cancel : PickingState

pub data MoveState : Type 0 where
  draft waiting confirmed partially_available assigned done cancel : MoveState

pub data DeliveredBy : Type 0 where
  delivered_by_supplier delivered_by_cartona : DeliveredBy
  -- the field is empty
  delivered_by_nobody : DeliveredBy

pub data PaymentMethod : Type 0 where
  standard installment wallet_top_up cartona_credit : PaymentMethod

-- A translated message: its template, and the values put into it.
pub record Text : Type 0 where
  pub template : String
  pub args : List String

-- `F` is Python's `float`.
pub record Move (F : Type 0) : Type 0 where
  pub state : MoveState
  pub quantity : F
  pub product_uom_qty : F

pub record Picking (F : Type 0) : Type 0 where
  pub id : ℕ
  pub name : String
  -- `picking_type_code == 'outgoing'`
  pub outgoing : Bool
  pub state : PickingState
  pub move_ids : List (Move F)

pub record Line (F : Type 0) : Type 0 where
  pub id : ℕ
  -- none on a section or a note
  pub product_id : Option ℕ
  pub name : String
  pub product_uom_qty : F
  pub price_unit : F
  pub cartona_line_id : Option String
  pub cartona_line_notes : Option String

pub record Order (F : Type 0) : Type 0 where
  pub id : ℕ
  pub name : String
  pub state : OrderState
  pub partner_id : ℕ
  pub company_id : ℕ
  pub warehouse_id : ℕ
  pub origin : String
  pub cartona_id : Option String
  pub cartona_config_id : Option ℕ
  pub cartona_sync_status : SyncStatus
  pub cartona_sync_date : Option ℕ
  pub cartona_error_message : Option Text
  pub is_cartona_order : Bool
  pub cartona_order_number : Option String
  pub cartona_status : Option String
  pub cartona_payment_method : Option PaymentMethod
  pub cartona_notes : Option String
  pub delivered_by : DeliveredBy
  pub cartona_delivery_otp : Option String
  pub order_line : List (Line F)
  pub picking_ids : List (Picking F)

-- What a `Char` field holds after a value is written to it: `None` and `False` clear it.
unfoldable pub to_char : Python → Json → Option String
to_char P null = none
to_char P (bool false) = none
to_char P v = some (str_json P v)

abbrev pub is_draft : OrderState → Bool
is_draft OrderState.draft = true
is_draft _ = false

-- `state in ('cancel', 'done')`
abbrev pub is_closed : OrderState → Bool
is_closed OrderState.cancel = true
is_closed OrderState.done = true
is_closed _ = false

abbrev pub is_cancelled : OrderState → Bool
is_cancelled OrderState.cancel = true
is_cancelled _ = false

-- `order.cartona_sync_status == 'error'`
abbrev pub is_error : SyncStatus → Bool
is_error SyncStatus.error = true
is_error _ = false

abbrev pub is_synced : SyncStatus → Bool
is_synced SyncStatus.synced = true
is_synced _ = false
