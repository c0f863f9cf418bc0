-- ===== src/Order/Create.antt =====
-- `_create_new_order` of models/cartona_order_processor.py.
use cartona_odoo.Base.{
  ℕ, Bool, true, false, ◌<>◌, Option, none, some, List, [], ◌∷◌, ◌++◌, any, if◌then◌else◌,
}
use cartona_odoo.Py.Exn.{Exn, Result, ok, err}
use cartona_odoo.Py.Json.{Json, Python, str_json}
use cartona_odoo.Config.Data.{Config}
use cartona_odoo.Partner.{find_or_create_cartona_customer}
use cartona_odoo.Order.Data.{Order, OrderState, SyncStatus, to_char}
use cartona_odoo.Order.Issue.{
  Status, customer_error, no_valid_order_lines, state_transition_error, unexpected_error, Issue,
  text,
}
use cartona_odoo.Order.Retailer.{Customer}
use cartona_odoo.Order.Validate.{Validated}
use cartona_odoo.Order.Transition.{apply_cartona_state_action}
use cartona_odoo.Order.Lines.{create_order_lines}
use cartona_odoo.Order.World.{
  World, Env, is_line_entry, put_order, remove_order, add_issue, customer_fields, label_of,
  order_issue,
}

module _ (P : Python) (env : Env P.Float) where
  open P use {Float}
  open env use {browse, odoo, directory, create_line, create_order, unlink_order, now, stamp}

  caught : Result (Option ℕ) → Option ℕ
  caught (ok partner) = partner
  caught (err e) = none

  -- An exception is caught, and no customer is returned.
  unfoldable pub find_or_create_customer : Customer → Config → World Float → Option ℕ × World Float
  unfolding customer_fields caught
  find_or_create_customer c config w =
      let (r, partners) =
        find_or_create_cartona_customer P directory now stamp (customer_fields P c) config
          w.partners in
      (caught r, record w { partners = partners })

  unfoldable pub order_values : Validated Float → Config → ℕ → Order Float
  order_values v config partner = record {
    id = 0;
    name = "";
    state = OrderState.draft;
    partner_id = partner;
    company_id = config.company_id;
    warehouse_id = config.warehouse_id;
    origin = "Cartona Order " <> str_json P v.order_id;
    cartona_id = to_char P v.order_id;
    cartona_config_id = some config.id;
    cartona_sync_status = SyncStatus.not_synced;
    cartona_sync_date = none;
    cartona_error_message = none;
    is_cartona_order = true;
    cartona_order_number = to_char P v.cartona_order_number;
    cartona_status = to_char P v.status;
    cartona_payment_method = some v.payment_method;
    cartona_notes = none;
    delivered_by = v.delivered_by;
    cartona_delivery_otp = none;
    order_line = [];
    picking_ids = [];
  }

  abbrev pub Made : Type 0
  Made = Result (Option (Order Float)) × World Float

  unfoldable pub report_failed : Validated Float → Json → Exn → World Float → Made
  unfolding order_issue
  report_failed v raw e w = (
    ok none,
    add_issue
        (order_issue P Status.error (text "Order %(order)s failed: %s" (label_of P v ∷ e.text ∷ []))
          (some raw) (some unexpected_error) none)
        w,
  )

  -- Behind an `unlink`, which returned or raised again.
  unfoldable pub failed_unlink :
      Validated Float → Json → Order Float → Exn → World Float → Option Exn → Made
  unfolding report_failed
  failed_unlink v raw o e w (some again) = (err again, w)
  failed_unlink v raw o e w none = report_failed v raw e (remove_order o w)

  -- The handler of `_create_new_order`; the order is there if it was created and still exists.
  unfoldable pub create_failed :
      Validated Float → Json → Option (Order Float) → Exn → World Float → Made
  unfolding failed_unlink report_failed
  create_failed v raw none e w = report_failed v raw e w
  create_failed v raw (some o) e w = failed_unlink v raw o e w (unlink_order o)

  unfoldable pub unlinked :
      (World Float → World Float)
      → Validated Float
      → Json
      → Order Float
      → World Float
      → Option Exn
      → Made
  unfolding create_failed
  unlinked report v raw o w (some e) = create_failed v raw (some o) e w
  unlinked report v raw o w none = (ok none, report (remove_order o w))

  -- `order.unlink()` in the `try`, and then `return None`.
  unfoldable pub unlink_and :
      (World Float → World Float) → Validated Float → Json → Order Float → World Float → Made
  unfolding unlinked
  unlink_and report v raw o w = unlinked report v raw o w (unlink_order o)

  -- The order lines could not be created.
  unfoldable pub without_lines : Validated Float → Json → World Float → World Float
  unfolding order_issue
  without_lines v raw w =
      if any (λ i. is_line_entry i.entry_type) w.issues
      then w
      else add_issue
          (order_issue P Status.error
            (text "Order %(order)s failed: could not create order lines" (label_of P v ∷ []))
            (some raw) (some no_valid_order_lines) none)
          w

  unfoldable pub not_applied : Validated Float → Json → Order Float → World Float → World Float
  unfolding order_issue
  not_applied v raw o w =
      add_issue
        (order_issue P Status.error
          (text "Order %(order)s failed to apply Cartona status %(status)s"
            (label_of P v ∷ str_json P v.status ∷ []))
          (some raw) (some state_transition_error) (some o))
        (put_order o w)

  -- The status has been applied to the new order, or could not be.
  unfoldable pub applied_new : Validated Float → Json → World Float → Bool × Order Float → Made
  unfolding unlink_and not_applied
  applied_new v raw w (true, o) = (ok (some o), put_order o w)
  applied_new v raw w (false, o) = unlink_and (λ u. u) v raw o (not_applied v raw o w)

  -- The lines of the new order have been created, or could not be.
  unfoldable pub filled_new :
      Validated Float → Json → World Float → Bool × Order Float × List Issue → Made
  unfolding applied_new without_lines
  filled_new v raw w (true, o, issues) =
      applied_new v raw (put_order o (record w { issues = issues }))
        (apply_cartona_state_action odoo P v.status o)
  filled_new v raw w (false, o, issues) =
      unlink_and (without_lines v raw) v raw o (put_order o (record w { issues = issues }))

  unfoldable pub fill_new : Validated Float → Config → Json → Order Float → World Float → Made
  unfolding filled_new
  fill_new v config raw o w =
      filled_new v raw w
        (create_order_lines P browse create_line config v.order_lines raw o w.issues)

  -- `create` has returned or raised.
  unfoldable pub created_new :
      Validated Float → Config → Json → World Float → Result (Order Float) → Made
  unfolding fill_new create_failed
  created_new v config raw w (err e) = create_failed v raw none e w
  created_new v config raw w (ok o) =
      fill_new v config raw o (record w { orders = w.orders ++ (o ∷ []) })

  unfoldable pub create_for : Validated Float → Config → Json → Option ℕ → World Float → Made
  unfolding created_new order_issue
  create_for v config raw none w = (
    ok none,
    add_issue
        (order_issue P Status.error
          (text "Order %(order)s failed: could not find or create customer" (label_of P v ∷ []))
          (some raw) (some customer_error) none)
        w,
  )
  create_for v config raw (some partner) w =
      created_new v config raw w (create_order w.orders (order_values v config partner))

  unfoldable pub create_new_order : Validated Float → Config → Json → World Float → Made
  unfolding create_for find_or_create_customer
  create_new_order v config raw w =
      let (customer, w') = find_or_create_customer v.customer_data config w in
      create_for v config raw customer w'
