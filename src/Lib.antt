-- ===== src/Lib.antt =====
-- Cartona integration for Odoo: an addon that pulls orders from the marketplace Cartona into Odoo,
-- sends prices, stock and order statuses back, and keeps a log of both.
--
-- The parts, and the files that model them. Paths of the program are from the repository's root.
--   Base, Base/*: lists, Booleans and optional values on native numbers.
--   Py: Python as far as the addon leans on it. Py/Exn has exceptions as values and actions on a
--     state; Py/Number integers and their texts; Py/Json the decoded JSON, with truth, `str`, `float`
--     and `hash` of it.
--   Config: models/cartona_config.py and models/cartona_mixin.py. Data is the record, Lookup finds
--     one, Rules are the guards and the constraints, Stats the counts of the dashboard and Jobs its
--     queued jobs, Dashboard its snapshot of issues, Domain, Windows and Overview the windows that it
--     opens, Connection the connection test, Manual the buttons that pull and sync.
--   Partner: models/res_partner.py, the customer of an order.
--   Order: models/cartona_order_processor.py, one payload at a time. Data has the records of an
--     order, its lines and deliveries; Issue what an import reports; Resolve the variant of an id;
--     Item the checks of a payload's line, Retailer its customer, Validate the checks of the payload;
--     Lines the lines and their rollback; Transition the statuses; World the tables and the
--     acknowledgement, Create and Update one order, Process the whole, `process_cartona_order`.
--   Log: models/cartona_sync_log.py and models/cartona_sync_log_line.py.
--   Product: models/cartona_product_sync.py (SyncTable), models/product_product.py,
--     models/product_template.py and the first part of models/stock_move.py (Trigger, Sync).
--   Api: models/cartona_api.py. Request is one call, Ack the thread of an acknowledgement, Pull and Tally
--     the pull of orders, Payload what is sent of variants, Batch one product batch, Run all of them and
--     their jobs, with what workers may do to the queue in Run/Drain, Retry the retry.
--   Sale: models/sale_order.py. Triggers are the overridden writes and the jobs that they queue,
--     Status and Details the jobs themselves.
--   Delivery: the pickings of models/stock_move.py and wizards/cartona_delivery_otp_wizard.py.
--   Migrate: migrations/. Names and Renames are both files of 18.0.2.0.0, Views 18.0.2.0.33 and
--     18.0.2.0.34, Indexes 18.0.2.0.50 and 18.0.2.0.31, Tables, Channel and Cleanup 18.0.2.0.39, Jobs
--     18.0.2.0.35, Pivot both files of 18.0.2.0.32 and Warehouses 18.0.2.0.47; a statement of SQL is
--     a function on its table.
--   Link: dev/link_cartona_products.py, with what it reports in Link/Laws.
--   Examples: a small world, and the theorems at it.
--
-- How they interact. A pull (Api/Pull) asks Cartona (Api/Request) for orders and imports each
-- (Order/Process), which finds or creates the customer (Partner) and acknowledges the order; the
-- issues become lines of a log (Log). A change of price, stock or an order queues jobs
-- (Product/Trigger, Sale/Triggers); a job sends (Product/Sync, Api/Run, Sale) and writes the
-- answer to the sync row (Product/SyncTable) or the order, and to the log.
--
-- How state is modelled. A table of the addon is a list of records, an update of a record a new
-- record; a function that changes tables takes and returns them. A search with a limit of one is the
-- first row that passes. A function that may raise returns a result, with the state that it leaves
-- where that outlives the exception. Helpers that only case on a value that was computed are
-- functions by clauses, so that proofs can follow them.
--
-- What is a parameter: Odoo's own methods (`Order.Transition.Odoo`, `Order.World.Env`,
-- `Partner.Directory`, `Order.Lines.CreateLine`, `Delivery.Validate`), each of which may raise; the
-- network and the texts of JSON (`Api.Request.Net`), the script's server (`Link.Server`); prices and
-- stock (`Api.Payload.Shelf`); floats and what else of Python is open (`Py.Json.Python`). Theorems
-- that lean on one say so as a hypothesis: a created row keeps the values it was given, or has a
-- fresh id; another job that runs in between keeps the unique constraint.
--
-- Bounds and fuel. `Api.Batch.slices` runs on the number of variants as fuel, which is enough, as
-- each batch takes one at least; `Py.Number.decimal` on the number itself. Numbers are unbounded, as in
-- Python. Times are minutes of one clock.
--
-- Not modelled: translations (a message is a template and its values), durations, the database's
-- transactions and access rules, views, the window actions of a log, the hook of the installation,
-- and the bundled addon `queue_job`, in whose place queueing a job appends it to a list. A record that
-- is deleted between the queueing of a job and its run, of which Odoo raises, and digits beyond ASCII,
-- which Python's `int` reads too, are left out as well. The lines of a draft order are deleted without
-- an exception; no caller deletes those of a confirmed one.
pub mod Base
pub mod Py
pub mod Config
pub mod Partner
pub mod Order
pub mod Log
pub mod Product
pub mod Api
pub mod Sale
pub mod Delivery
pub mod Migrate
pub mod Link
pub mod Examples
