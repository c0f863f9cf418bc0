-- ===== src/Migrate/Cleanup/Completes.antt =====
-- The whole of migrations/18.0.2.0.39/pre-migrate.py.
use cartona_odoo.Base.{
  ℕ, ◌≡◌, refl, ap, ap₂, ◌∙◌, Bool, true, false, not, ◌&&◌, ◌||◌, Option, none, some, arith, str_eq,
  ◌==◌, is_some, Bool-cases, inl, inr, String,
}
use cartona_odoo.Py.Exn.{ok}
use cartona_odoo.Migrate.Tables.{XmlId, Database, xmlid_row}
use cartona_odoo.Migrate.Cleanup.{migrate_group, migrate_groups, migrate_rows, move_group, migrate}
use cartona_odoo.Migrate.Cleanup.Laws.{has_user, migrate_group-has_user, xmlid_row-delete_xmlid}
use cartona_odoo.Migrate.Cleanup.Cleaned.{migrate-Cleaned}

migrate_group-finds :
    (a b name : String) (db : Database)
    → str_eq a name ≡ false
    → xmlid_row (migrate_group a b db) name ≡ xmlid_row db name
unfolding migrate_group
migrate_group-finds a b name db d = by_rows (xmlid_row db a) (xmlid_row db b)
  where
    by_rows : (o n : Option XmlId) → xmlid_row (migrate_rows a db o n) name ≡ xmlid_row db name
    by_rows none n = unfold migrate_rows in refl
    by_rows (some o) none = unfold migrate_rows in refl
    by_rows (some o) (some n) = elim (Bool-cases (str_eq o.model "res.groups")) [
      | inl y ↦
          unfold migrate_rows move_group xmlid_row in
          rw y (unfold xmlid_row in xmlid_row-delete_xmlid a name db d)
      | inr f ↦ unfold migrate_rows in rw f refl
    ]

-- Both pairs, one after the other.
migrate_groups-has_user :
    (db : Database) (o n o' n' : XmlId) (g u : ℕ)
    → xmlid_row db "group_marketplace_user" ≡ some o
    → xmlid_row db "group_cartona_user" ≡ some n
    → xmlid_row db "group_marketplace_manager" ≡ some o'
    → xmlid_row db "group_cartona_manager" ≡ some n'
    → (str_eq o.model "res.groups" && str_eq o'.model "res.groups") ≡ true
    → let users = λ (i : ℕ). has_user i u db.groups_users in
      let moved = λ (i : ℕ). not (i == o.res_id) && (users i || i == n.res_id && users o.res_id) in
      has_user g u (migrate_groups db).groups_users
      ≡ (not (g == o'.res_id) && (moved g || g == n'.res_id && moved o'.res_id))
unfolding migrate_groups
migrate_groups-has_user db o n o' n' g u eo en eo' en' m =
    let one : Database = migrate_group "group_marketplace_user" "group_cartona_user" db in
    let step = λ (i : ℕ).
      migrate_group-has_user "group_marketplace_user" "group_cartona_user" db o n i u eo en
        (ground arith) in
    let second =
      migrate_group-has_user "group_marketplace_manager" "group_cartona_manager" one o' n' g u
        (migrate_group-finds "group_marketplace_user" "group_cartona_user"
            "group_marketplace_manager" db refl
          ∙ eo')
        (migrate_group-finds "group_marketplace_user" "group_cartona_user" "group_cartona_manager"
            db refl
          ∙ en')
        (ground arith) in
    second
    ∙ ap₂ (λ a b. not (g == o'.res_id) && (a || g == n'.res_id && b)) (step g) (step o'.res_id)

abbrev distinct : ℕ → ℕ → ℕ → ℕ → Bool
distinct a b c d = not (a == b || a == c || a == d) && not (b == c || b == d) && not (c == d)

-- Where the tables of the queue are there, the two pairs of groups too, and the four groups are
-- distinct, the migration ends: the users of each new group are its own and the old one's, whoever
-- was in neither is in neither, and no job is touched.
pub migrate-Completes :
    (db : Database) (o n o' n' : XmlId) (u : ℕ)
    → is_some db.queue_job_channel ≡ true
    → xmlid_row db "group_marketplace_user" ≡ some o
    → xmlid_row db "group_cartona_user" ≡ some n
    → xmlid_row db "group_marketplace_manager" ≡ some o'
    → xmlid_row db "group_cartona_manager" ≡ some n'
    → (str_eq o.model "res.groups" && str_eq o'.model "res.groups") ≡ true
    → distinct o.res_id n.res_id o'.res_id n'.res_id ≡ true
    → (later : Database) × (migrate db ≡ ok later)
      × (has_user n.res_id u later.groups_users
          ≡ (has_user n.res_id u db.groups_users || has_user o.res_id u db.groups_users))
      × (has_user n'.res_id u later.groups_users
          ≡ (has_user n'.res_id u db.groups_users || has_user o'.res_id u db.groups_users))
      × (later.queue_job ≡ db.queue_job)
migrate-Completes db o n o' n' u h eo en eo' en' m d =
    let (later, e, x, y) = migrate-Cleaned db h in
    (
      later,
      e,
      ap (has_user n.res_id u) x
          ∙ (migrate_groups-has_user db o n o' n' n.res_id u eo en eo' en' m ∙ ground arith),
      ap (has_user n'.res_id u) x
          ∙ (migrate_groups-has_user db o n o' n' n'.res_id u eo en eo' en' m ∙ ground arith),
      y,
    )
