-- ===== src/Examples/Renames.antt =====
-- The renaming, at a schema with one order column and one order field.
use cartona_odoo.Base.{List, ◌++◌, ◌≡◌, refl, true, some, [], ◌∷◌, take, drop, select}
use cartona_odoo.Migrate.Names.{Column, ModelField, Database, kept, ColumnRename, field_renames}
use cartona_odoo.Migrate.Renames.{table_exists, update_ir_model_fields, pre_migrate, post_migrate}
use cartona_odoo.Migrate.Renames.Places.{contents_of}
use cartona_odoo.Migrate.Renames.Moves.{pre_migrate-moves}
use cartona_odoo.Migrate.Renames.Again.{updated, post_migrate-idle}
use cartona_odoo.Migrate.Renames.Others.{is_other, update_ir_model_fields-others}

abbrev old_schema : Database
old_schema = record {
  tables = "marketplace_config" ∷ "sale_order" ∷ [];
  columns =
      record { table = "sale_order"; name = "marketplace_notes"; contents = kept "Ring twice" }
      ∷ [];
  models = "marketplace.config" ∷ "sale.order" ∷ [];
  model_fields =
      record { model = "sale.order"; name = "cartona_id" }
      ∷ record { model = "sale.order"; name = "cartona_notes" }
      ∷ [];
}

abbrev notes : ColumnRename
notes = record { table = "sale_order"; old = "marketplace_notes"; new = "cartona_notes" }

is_there : table_exists old_schema "marketplace_config" ≡ true
unfolding table_exists
is_there = refl

orders_there : table_exists old_schema "sale_order" ≡ true
unfolding table_exists
orders_there = refl

pre_migrate-moves_example :
    contents_of "sale_order" "cartona_notes" (pre_migrate old_schema) ≡ some (kept "Ring twice")
pre_migrate-moves_example =
    pre_migrate-moves (take 11 field_renames) (drop 12 field_renames) notes old_schema
      (kept "Ring twice") refl refl is_there orders_there refl refl

-- Odoo adds the configuration's warehouse, and its field.
abbrev added : List Column
added = record { table = "cartona_config"; name = "warehouse_id"; contents = kept "" } ∷ []

abbrev new_fields : List ModelField
new_fields = record { model = "cartona.config"; name = "warehouse_id" } ∷ []

post_migrate-idle_example :
    ((post_migrate (updated added [] new_fields (pre_migrate old_schema))).tables
      ≡ (pre_migrate old_schema).tables)
    × ((post_migrate (updated added [] new_fields (pre_migrate old_schema))).columns
        ≡ (pre_migrate old_schema).columns ++ added)
post_migrate-idle_example = post_migrate-idle old_schema added [] new_fields is_there refl

update_ir_model_fields-others_example :
    select is_other (update_ir_model_fields old_schema).model_fields
    ≡ record { model = "sale.order"; name = "cartona_notes" } ∷ []
update_ir_model_fields-others_example = update_ir_model_fields-others old_schema
