-- ===== src/Migrate/Jobs/Laws.antt =====
-- What is left of the queue.
use cartona_odoo.Base.{
  ◌≡◌, refl, ap, ap₂, ◌∙◌, Bool, true, false, not, ◌&&◌, List, [], ◌∷◌, arith, map, select, str_eq,
  eq_iff, Bool-cases, inl, inr, String,
}
use cartona_odoo.Migrate.Jobs.{
  QueueJob, is_unfinished, names_marketplace, cancel_obsolete, remap_stock, remap_orders,
  move_channel, migrate,
}

one_job : QueueJob → QueueJob
one_job j = move_channel (remap_orders (remap_stock (cancel_obsolete j)))

waits : QueueJob → Bool
waits j = is_unfinished j.state && not (names_marketplace j.method_name)

move_channel-state : (j : QueueJob) → (move_channel j).state ≡ j.state
unfolding move_channel
move_channel-state j = ground arith

remap_orders-state : (j : QueueJob) → (remap_orders j).state ≡ j.state
unfolding remap_orders
remap_orders-state j = ground arith

remap_stock-state : (j : QueueJob) → (remap_stock j).state ≡ j.state
unfolding remap_stock
remap_stock-state j = ground arith

is_unfinished-cancelled : is_unfinished "cancelled" ≡ false
unfolding is_unfinished
is_unfinished-cancelled = refl

names-stock : names_marketplace "_sync_stock_to_marketplaces" ≡ true
unfolding names_marketplace
names-stock = refl

names-orders : names_marketplace "_sync_status_to_marketplace" ≡ true
unfolding names_marketplace
names-orders = refl

one_job-is_unfinished : (j : QueueJob) → is_unfinished (one_job j).state ≡ waits j
unfolding one_job waits
one_job-is_unfinished j =
    ap is_unfinished (
      move_channel-state (remap_orders (remap_stock (cancel_obsolete j)))
      ∙ remap_orders-state (remap_stock (cancel_obsolete j))
      ∙ remap_stock-state (cancel_obsolete j))
    ∙ by_test (names_marketplace j.method_name) (is_unfinished j.state) refl refl
  where
    by_test :
        (m s : Bool)
        → names_marketplace j.method_name ≡ m
        → is_unfinished j.state ≡ s
        → is_unfinished (cancel_obsolete j).state
          ≡ (is_unfinished j.state && not (names_marketplace j.method_name))
    by_test true true a b = unfold cancel_obsolete in simp (a, b, is_unfinished-cancelled) refl
    by_test true false a b = unfold cancel_obsolete in simp (a, b) refl
    by_test false true a b = unfold cancel_obsolete in simp (a, b) refl
    by_test false false a b = unfold cancel_obsolete in simp (a, b) refl

differs :
    (a b : String) → names_marketplace a ≡ false → names_marketplace b ≡ true → str_eq a b ≡ false
differs a b f t = elim (Bool-cases (str_eq a b)) [
  | inl y ↦ cc (ap names_marketplace ((eq_iff a b).0 y), f, t)
  | inr n ↦ n
]

-- A job that goes on waiting is not renamed.
one_job-waits : (j : QueueJob) → waits j ≡ true → one_job j ≡ move_channel j
unfolding one_job waits cancel_obsolete remap_stock remap_orders
one_job-waits j w =
    let f : names_marketplace j.method_name ≡ false = ground arith in
    simp
      (
        f,
        differs j.method_name "_sync_stock_to_marketplaces" f names-stock,
        differs j.method_name "_sync_status_to_marketplace" f names-orders,
      )
      refl

select-map :
    {A : Type 0} (p q : A → Bool) (f g : A → A) (xs : List A)
    → ((x : A) → p (f x) ≡ q x)
    → ((x : A) → q x ≡ true → f x ≡ g x)
    → select p (map f xs) ≡ map g (select q xs)
select-map p q f g [] e k = refl
select-map p q f g (x ∷ xs) e k = elim (Bool-cases (q x)) [
  | inl y ↦ simp (e x) (simp y (ap₂ (λ z zs. z ∷ zs) (k x y) (select-map p q f g xs e k)))
  | inr n ↦ simp (e x) (simp n (select-map p q f g xs e k))
]

migrate-each : (jobs : List QueueJob) → migrate jobs ≡ map one_job jobs
unfolding migrate one_job
migrate-each [] = refl
migrate-each (j ∷ jobs) = ap (λ js. one_job j ∷ js) (migrate-each jobs)

-- The unfinished jobs behind the migration are those of before whose method does not name the
-- marketplace, changed in nothing but the channel: no job that was waiting is renamed to a method of
-- this addon.
pub migrate-unfinished :
    (jobs : List QueueJob)
    → select (λ j. is_unfinished j.state) (migrate jobs)
      ≡ map move_channel
          (select (λ j. is_unfinished j.state && not (names_marketplace j.method_name)) jobs)
unfolding waits
migrate-unfinished jobs =
    ap (select (λ j. is_unfinished j.state)) (migrate-each jobs)
    ∙ select-map (λ j. is_unfinished j.state) waits one_job move_channel jobs one_job-is_unfinished
        one_job-waits
