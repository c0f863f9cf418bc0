-- ===== src/Migrate/Views.antt =====
-- migrations/18.0.2.0.33/pre-migrate.py and migrations/18.0.2.0.34/pre-migrate.py: the addon's views go,
-- first those of variants, then all, and are loaded again from its files.
pub mod Laws
use cartona_odoo.Base.{ℕ, String, Bool, not, ◌&&◌, List, any, select, length, str_eq, ◌==◌}
use cartona_odoo.Migrate.Pivot.{XmlId, View, Database, is_gone, is_own_view}

-- `migrate` of the first: the fields without a column, and the views.
unfoldable pub remove_product_views : Database → Database
unfolding is_gone is_own_view
remove_product_views db = record db {
  model_fields = select (λ f. not (is_gone db f)) db.model_fields;
  xml_ids = select (λ x. not (is_own_view db x)) db.xml_ids;
  views = select (λ v. not (any (λ x. is_own_view db x && x.res_id == v.id) db.xml_ids)) db.views;
}

-- A name that an addon gave to a view that is there.
unfoldable pub is_module_view : String → Database → XmlId → Bool
is_module_view addon db x =
    str_eq x.addon addon && str_eq x.model "ir.ui.view" && any (λ v. v.id == x.res_id) db.views

-- The number of names, and what is left.
unfoldable pub delete_module_views : String → Database → ℕ × Database
unfolding is_module_view
delete_module_views addon db = (
  length (select (is_module_view addon db) db.xml_ids),
  record db {
    xml_ids = select (λ x. not (is_module_view addon db x)) db.xml_ids;
    views =
        select (λ v. not (any (λ x. is_module_view addon db x && x.res_id == v.id) db.xml_ids))
          db.views;
  },
)

-- `migrate` of the second.
unfoldable pub remove_views : Database → Database
unfolding delete_module_views
remove_views db = (delete_module_views "cartona_odoo" db).1
