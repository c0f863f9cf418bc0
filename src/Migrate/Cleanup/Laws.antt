-- ===== src/Migrate/Cleanup/Laws.antt =====
-- The groups in migrations/18.0.2.0.39/pre-migrate.py.
use cartona_odoo.Base.{
  ℕ, ◌≡◌, refl, ap₂, Bool, true, false, not, ◌&&◌, ◌||◌, some, List, [], ◌∷◌, arith, any,
  any-append, find, select, str_eq, ◌==◌, eq_iff, Bool-cases, inl, inr, String,
}
use cartona_odoo.Migrate.Tables.{XmlId, Membership, Database, is_xmlid, xmlid_row, delete_xmlid}
use cartona_odoo.Migrate.Cleanup.{
  is_member, insert_member, insert_members, move_members, move_group, migrate_rows, migrate_group,
}

abbrev pub has_user : ℕ → ℕ → List Membership → Bool
has_user g u ms = any (is_member g u) ms

same_user :
    (g u new v : ℕ) (ms : List Membership)
    → (g == new && u == v) ≡ true
    → has_user g u ms ≡ has_user new v ms
same_user g u new v ms h =
    let p : g ≡ new = ground arith in
    let q : u ≡ v = ground arith in ap₂ (λ a b. has_user a b ms) p q

insert_member-has_user :
    (g u new v : ℕ) (ms : List Membership)
    → has_user g u (insert_member ms new v) ≡ (has_user g u ms || g == new && u == v)
unfolding insert_member
insert_member-has_user g u new v ms = elim (Bool-cases (g == new && u == v)) [
  | inl h ↦ ground (
    arith,
    same_user g u new v ms h,
    any-append (is_member g u) ms (record { gid = new; uid = v } ∷ []),
  )
  | inr h ↦ ground (arith, any-append (is_member g u) ms (record { gid = new; uid = v } ∷ []))
]

insert_members-has_user :
    (g u new : ℕ) (rest ms : List Membership)
    → has_user g u (insert_members new rest ms)
      ≡ (has_user g u ms || g == new && any (λ m. m.uid == u) rest)
unfolding insert_members
insert_members-has_user g u new [] ms = ground arith
insert_members-has_user g u new (m ∷ rest) ms = ground (
  arith,
  insert_members-has_user g u new rest (insert_member ms new m.uid),
  insert_member-has_user g u new m.uid ms,
)

has_user-without :
    (g u old : ℕ) (ms : List Membership)
    → has_user g u (select (λ m. not (m.gid == old)) ms) ≡ (not (g == old) && has_user g u ms)
has_user-without g u old [] = ground arith
has_user-without g u old (m ∷ ms) = ground (arith, has_user-without g u old ms)

users_of :
    (u old : ℕ) (ms : List Membership)
    → any (λ m. m.uid == u) (select (λ m. m.gid == old) ms) ≡ has_user old u ms
users_of u old [] = refl
users_of u old (m ∷ ms) = ground (arith, users_of u old ms)

move_members-has_user :
    (g u old new : ℕ) (ms : List Membership)
    → has_user g u (move_members old new ms)
      ≡ (not (g == old) && (has_user g u ms || g == new && has_user old u ms))
unfolding move_members
move_members-has_user g u old new ms = ground (
  arith,
  has_user-without g u old (insert_members new (select (λ m. m.gid == old) ms) ms),
  insert_members-has_user g u new (select (λ m. m.gid == old) ms) ms,
  users_of u old ms,
)

-- Where the old and the new group are there, the new one has the users of both, the old one none,
-- and every other group its own; so it is whichever of the two names the migration is at.
pub migrate_group-has_user :
    (old_name new_name : String) (db : Database) (o n : XmlId) (g u : ℕ)
    → xmlid_row db old_name ≡ some o
    → xmlid_row db new_name ≡ some n
    → str_eq o.model "res.groups" ≡ true
    → has_user g u (migrate_group old_name new_name db).groups_users ≡ (
        not (g == o.res_id)
        && (has_user g u db.groups_users || g == n.res_id && has_user o.res_id u db.groups_users))
unfolding migrate_group migrate_rows move_group
migrate_group-has_user old_name new_name db o n g u e f m =
    rw (e, f) (rw m (move_members-has_user g u o.res_id n.res_id db.groups_users))

-- The rows of other names are found as before.
find-select :
    {A : Type 0} (p q : A → Bool) (xs : List A)
    → ((x : A) → p x ≡ true → q x ≡ true)
    → find p (select q xs) ≡ find p xs
find-select p q [] h = refl
find-select p q (x ∷ xs) h = ground (arith, h x, find-select p q xs h)

pub xmlid_row-delete_xmlid :
    (a b : String) (db : Database)
    → str_eq a b ≡ false
    → xmlid_row (delete_xmlid a db) b ≡ xmlid_row db b
unfolding xmlid_row delete_xmlid is_xmlid
xmlid_row-delete_xmlid a b db d = find-select _ _ db.xml_ids (λ x h. other_name x h)
  where
    other_name :
        (x : XmlId)
        → (str_eq x.addon "cartona_odoo" && str_eq x.name b) ≡ true
        → not (str_eq x.addon "cartona_odoo" && str_eq x.name a) ≡ true
    other_name x h = ground (arith, eq_iff x.name b, eq_iff x.name a, eq_iff a b)
