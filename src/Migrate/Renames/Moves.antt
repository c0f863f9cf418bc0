-- ===== src/Migrate/Renames/Moves.antt =====
-- A renamed column in migrations/18.0.2.0.0.
use cartona_odoo.Base.{
  and_left, and_right, false_of-not, String, Bool, true, not, ◌&&◌, none, some, List, [], ◌∷◌, ◌++◌,
  ◌≡◌, refl, ◌∙◌, ap, arith, any, all, all-append, all-impl, str_eq, subst,
}
use cartona_odoo.Migrate.Names.{
  Contents, Database, Rename, ColumnRename, ColumnName, table_renames, model_renames, field_renames,
  columns_to_drop,
}
use cartona_odoo.Migrate.Renames.{
  table_exists, rename_column, add_column, update_ir_model, rename_fields, delete_fields,
  update_ir_model_fields, rename_tables, rename_columns, drop_columns, post_migrate, pre_migrate,
}
use cartona_odoo.Migrate.Renames.Places.{
  contents_in, contents_of, same_place, rename_column-elsewhere, rename_column-moves,
  drop_column-elsewhere, add_column-elsewhere, rename_table-elsewhere, rename_table-exists,
  rename_column-tables,
}

-- Whether a renaming has nothing to do with a place.
abbrev pub apart : ColumnRename → String → String → Bool
apart r u m = not (same_place r.table r.old u m) && not (same_place r.table r.new u m)

abbrev pub unrelated : ColumnRename → ColumnRename → Bool
unrelated r s =
    apart r s.table s.old && apart r s.table s.new && apart s r.table r.old && apart s r.table r.new

-- Whether no renaming of a list has to do with another.
abbrev pub independent : List ColumnRename → Bool
independent [] = true
independent (r ∷ rs) = all (unrelated r) rs && independent rs

pub apart-elsewhere :
    (r : ColumnRename) (u m : String) (db : Database)
    → apart r u m ≡ true
    → contents_of u m (rename_column r.table r.old r.new db) ≡ contents_of u m db
apart-elsewhere r u m db a =
    rename_column-elsewhere r.table r.old r.new u m db (ground (arith, a)) (ground (arith, a))

pub rename_columns-elsewhere :
    (rs : List ColumnRename) (u m : String) (db : Database)
    → all (λ r. apart r u m) rs ≡ true
    → contents_of u m (rename_columns rs db) ≡ contents_of u m db
unfolding rename_columns
rename_columns-elsewhere [] u m db a = refl
rename_columns-elsewhere (r ∷ rs) u m db a =
    rename_columns-elsewhere rs u m _ (ground (arith, a))
    ∙ apart-elsewhere r u m db (ground (arith, a))

all-middle :
    {A : Type 0} (p : A → Bool) (before after : List A) (x : A)
    → all p (before ++ (x ∷ after)) ≡ true
    → p x ≡ true
all-middle p before after x h = ground (arith, h, all-append p before (x ∷ after))

and_all :
    (a b c d : Bool) → (a && b && c && d) ≡ true → (a ≡ true) × (b ≡ true) × (c ≡ true) × (d ≡ true)
and_all a b c d h = ground (arith, h)

-- What one renaming of a list of unrelated ones has to do with another.
pub unrelated-apart :
    (r s : ColumnRename)
    → unrelated r s ≡ true
    → (apart r s.table s.old ≡ true)
      × (apart r s.table s.new ≡ true)
      × (apart s r.table r.old ≡ true)
      × (apart s r.table r.new ≡ true)
unrelated-apart r s h =
    and_all (apart r s.table s.old) (apart r s.table s.new) (apart s r.table r.old)
      (apart s r.table r.new) h

rename_columns-moves :
    (before after : List ColumnRename) (r : ColumnRename) (db : Database) (x : Contents)
    → independent (before ++ (r ∷ after)) ≡ true
    → table_exists db r.table ≡ true
    → contents_of r.table r.old db ≡ some x
    → contents_of r.table r.new db ≡ none
    → contents_of r.table r.new (rename_columns (before ++ (r ∷ after)) db) ≡ some x
unfolding rename_columns table_exists
rename_columns-moves [] after r db x i there old free =
    rename_columns-elsewhere after r.table r.new _ (
      all-impl (unrelated r) (λ s. apart s r.table r.new) after (λ s h. (unrelated-apart r s h).3)
        (and_left (all (unrelated r) after) _ i))
    ∙ rename_column-moves r.table r.old r.new db x there old free
rename_columns-moves (s ∷ before) after r db x i there old free =
    let u =
      all-middle (unrelated s) before after r
        (and_left (all (unrelated s) (before ++ (r ∷ after))) _ i) in
    rename_columns-moves before after r (rename_column s.table s.old s.new db) x
      (and_right (all (unrelated s) (before ++ (r ∷ after))) _ i)
      (ap (any (str_eq r.table)) (rename_column-tables s.table s.old s.new db) ∙ there)
      (apart-elsewhere s r.table r.old db (unrelated-apart s r u).0 ∙ old)
      (apart-elsewhere s r.table r.new db (unrelated-apart s r u).1 ∙ free)

pub drop_columns-elsewhere :
    (cs : List ColumnName) (u m : String) (db : Database)
    → all (λ c. not (same_place c.table c.name u m)) cs ≡ true
    → contents_of u m (drop_columns cs db) ≡ contents_of u m db
unfolding drop_columns
drop_columns-elsewhere [] u m db a = refl
drop_columns-elsewhere (c ∷ cs) u m db a =
    drop_columns-elsewhere cs u m _ (ground (arith, a))
    ∙ drop_column-elsewhere c.table c.name u m db (ground (arith, a))

-- Whether no renaming of a list has to do with a table.
abbrev pub stays : String → List Rename → Bool
stays t rs = all (λ q. not (str_eq q.old t) && not (str_eq q.new t)) rs

rename_tables-elsewhere :
    (rs : List Rename) (u m : String) (db : Database)
    → stays u rs ≡ true
    → contents_of u m (rename_tables rs db) ≡ contents_of u m db
unfolding rename_tables
rename_tables-elsewhere [] u m db a = refl
rename_tables-elsewhere (q ∷ rs) u m db a =
    rename_tables-elsewhere rs u m _ (ground (arith, a))
    ∙ rename_table-elsewhere q.old q.new u m db (ground (arith, a)) (ground (arith, a))

pub rename_tables-exists :
    (rs : List Rename) (u : String) (db : Database)
    → stays u rs ≡ true
    → table_exists (rename_tables rs db) u ≡ table_exists db u
unfolding rename_tables
rename_tables-exists [] u db a = refl
rename_tables-exists (q ∷ rs) u db a =
    rename_tables-exists rs u _ (ground (arith, a))
    ∙ rename_table-exists q.old q.new u db (ground (arith, a)) (ground (arith, a))

update_ir_model-columns :
    (rs : List Rename) (db : Database) → (update_ir_model rs db).columns ≡ db.columns
unfolding update_ir_model
update_ir_model-columns [] db = refl
update_ir_model-columns (r ∷ rs) db = update_ir_model-columns rs _

rename_fields-columns :
    (rs : List ColumnRename) (db : Database) → (rename_fields rs db).columns ≡ db.columns
unfolding rename_fields
rename_fields-columns [] db = refl
rename_fields-columns (r ∷ rs) db = rename_fields-columns rs _

delete_fields-columns :
    (cs : List ColumnName) (db : Database) → (delete_fields cs db).columns ≡ db.columns
unfolding delete_fields
delete_fields-columns [] db = refl
delete_fields-columns (c ∷ cs) db = delete_fields-columns cs _

-- No column that is new or dropped has the new name of a renamed one.
abbrev added : ColumnRename → Bool
added r = same_place "cartona_config" "is_cartona_sync_enabled" r.table r.new

abbrev survives : ColumnRename → Bool
survives r =
    not (added r) && all (λ c. not (same_place c.table c.name r.table r.new)) columns_to_drop

field_renames-survive : all survives field_renames ≡ true
field_renames-survive = refl

field_renames-independent : independent field_renames ≡ true
field_renames-independent = refl

post_migrate-moves :
    (before after : List ColumnRename) (r : ColumnRename) (db : Database) (x : Contents)
    → field_renames ≡ before ++ (r ∷ after)
    → stays r.table table_renames ≡ true
    → table_exists db r.table ≡ true
    → contents_of r.table r.old db ≡ some x
    → contents_of r.table r.new db ≡ none
    → contents_of r.table r.new (post_migrate db) ≡ some x
unfolding post_migrate update_ir_model_fields
post_migrate-moves before after r db x e stay there old free =
    let s : survives r ≡ true =
      all-middle survives before after r
        (subst (λ l. all survives l ≡ true) e field_renames-survive) in
    let named = rename_tables table_renames db in
    let moved : contents_of r.table r.new (rename_columns field_renames named) ≡ some x =
      ap (λ l. contents_of r.table r.new (rename_columns l named)) e
      ∙ rename_columns-moves before after r named x
          (subst (λ l. independent l ≡ true) e field_renames-independent)
          (rename_tables-exists table_renames r.table db stay ∙ there)
          (rename_tables-elsewhere table_renames r.table r.old db stay ∙ old)
          (rename_tables-elsewhere table_renames r.table r.new db stay ∙ free) in
    let full =
      add_column "cartona_config" "is_cartona_sync_enabled" "false"
        (rename_columns field_renames named) in
    let small = drop_columns columns_to_drop full in
    let modelled = update_ir_model model_renames small in
    ap (contents_in r.table r.new) (
      delete_fields-columns columns_to_drop (rename_fields field_renames modelled)
      ∙ rename_fields-columns field_renames modelled
      ∙ update_ir_model-columns model_renames small)
    ∙ drop_columns-elsewhere columns_to_drop r.table r.new _ (and_right (not (added r)) _ s)
    ∙ add_column-elsewhere "cartona_config" "is_cartona_sync_enabled" "false" r.table r.new _
        (false_of-not (added r) (and_left (not (added r)) _ s))
    ∙ moved

-- Where the old schema is there: a column that is renamed, of a table that keeps its name, holds under
-- its new name what it held, where that name was free; no other step of the migration loses it.
pub pre_migrate-moves :
    (before after : List ColumnRename) (r : ColumnRename) (db : Database) (x : Contents)
    → field_renames ≡ before ++ (r ∷ after)
    → stays r.table table_renames ≡ true
    → table_exists db "marketplace_config" ≡ true
    → table_exists db r.table ≡ true
    → contents_of r.table r.old db ≡ some x
    → contents_of r.table r.new db ≡ none
    → contents_of r.table r.new (pre_migrate db) ≡ some x
unfolding pre_migrate
pre_migrate-moves before after r db x e stay here there old free =
    rw here (post_migrate-moves before after r db x e stay there old free)
