-- ===== src/Checkout/Ordering/Concurrent/Safety.antt =====
-- The steps of concurrent checkouts, against the invariant.
use mathlib.Core.Path.{subst}
use study_microsservices_nod.Base.{
  ℕ, ◌+◌, ◌≡◌, ◌≢◌, refl, sym, ap, ◌∙◌, String, false, ◌==◌, ◌=ₛ◌, if◌then◌else◌, List, [], ◌∷◌,
  ◌++◌, length, arith, eq_iff, ◌⊎◌, Bool-cases, inl, inr,
}
use study_microsservices_nod.Checkout.Orders.{Cart, Order, new_order}
use study_microsservices_nod.Checkout.Store.{CartRow, Tables, update_where}
use study_microsservices_nod.Checkout.Ordering.{is_still_active}
use study_microsservices_nod.Checkout.Ordering.Single.{orders_of-add, completed_at}
use study_microsservices_nod.Checkout.Cart.Tables.{orders_of}
use study_microsservices_nod.Checkout.Ordering.Placing.{written}
use study_microsservices_nod.Checkout.Ordering.Concurrent.{
  Phase, began, found, locked, ended, World, set_phase, active_rows, IsFree, Step, reads, updates,
  commits, rolls_back, edits, Reach, here, next, IsOrderedOnce, IsSafe,
}

pub completed_none :
    (id : String) (now : ℕ) (rows : List CartRow)
    → active_rows id (update_where (is_still_active id) (completed_at now) rows) ≡ 0
completed_none id now [] = refl
completed_none id now (row ∷ rows) = elim (Bool-cases (is_still_active id row)) [
  | inl hit ↦ rw hit (ground (arith, completed_none id now rows))
  | inr miss ↦ rw (miss, miss) (completed_none id now rows)
]

completed_others :
    (id other : String) (now : ℕ) (rows : List CartRow)
    → (id =ₛ other) ≡ false
    → active_rows other (update_where (is_still_active id) (completed_at now) rows)
      ≡ active_rows other rows
completed_others id other now [] h = refl
completed_others id other now (row ∷ rows) h = ground (
  arith,
  completed_others id other now rows,
  eq_iff row.id id,
  eq_iff row.id other,
  eq_iff id other,
)

locked_same : {a b : Cart} → locked a ≡ locked b → a.id ≡ b.id
locked_same h = cc

pub ended_apart : {a : Cart} → ended ≡ locked a → ⊥
ended_apart h = cc

began_apart : {a : Cart} → began ≡ locked a → ⊥
began_apart h = cc

apart_ids : {a b : String} → a ≢ b → (a =ₛ b) ≡ false
apart_ids {a = a} {b = b} h = ground (arith, eq_iff a b)

-- What a change of one checkout's phase leaves.
pub set_phase-locked :
    (i j : ℕ) (p : Phase) (phase : ℕ → Phase) (cart : Cart)
    → set_phase i p phase j ≡ locked cart
    → ((i ≡ j) × (p ≡ locked cart)) ⊎ ((i ≢ j) × (phase j ≡ locked cart))
set_phase-locked i j p phase cart h = elim (Bool-cases (i == j)) [
  | inl same ↦ inl (ground arith, rw same at h)
  | inr differs ↦ inr ((λ e. ground arith), rw differs at h)
]

-- The invariant, for a checkout that takes no lock and tables that keep the counts.
unlocked-IsSafe :
    (w : World) (i : ℕ) (p : Phase)
    → ((cart : Cart) → p ≢ locked cart)
    → IsSafe w
    → IsSafe (record { tables = w.tables; phase = set_phase i p w.phase })
unlocked-IsSafe w i p free safe =
    let before : (j : ℕ) (cart : Cart)
        → set_phase i p w.phase j ≡ locked cart
        → w.phase j ≡ locked cart =
      (λ j cart h. elim (set_phase-locked i j p w.phase cart h) [
        | inl (same, e) ↦ absurd (free cart e)
        | inr (differs, e) ↦ e
      ]) in
    record {
      once = safe.once;
      lock_active = λ j cart h. safe.lock_active j cart (before j cart h);
      lock_apart =
          λ j k a b differs h h'. safe.lock_apart j k a b differs (before j a h) (before k b h');
    }

locks-IsSafe :
    (w : World) (i : ℕ) (cart : Cart)
    → IsFree w i cart.id
    → active_rows cart.id w.tables.carts ≡ 1
    → IsSafe w
    → IsSafe (record { tables = w.tables; phase = set_phase i (locked cart) w.phase })
locks-IsSafe w i cart free one safe = record {
  once = safe.once;
  lock_active = λ j other h. elim (set_phase-locked i j (locked cart) w.phase other h) [
    | inl (same, e) ↦ subst (λ id. active_rows id w.tables.carts ≡ 1) (locked_same e) one
    | inr (differs, e) ↦ safe.lock_active j other e
  ];
  lock_apart = λ j k a b differs h h'. elim (set_phase-locked i j (locked cart) w.phase a h) [
    | inl (same, e) ↦ elim (set_phase-locked i k (locked cart) w.phase b h') [
      | inl (same', e') ↦ absurd (differs (sym same ∙ same'))
      | inr (apart, e') ↦
          (λ x. free k (λ q. differs (sym same ∙ sym q)) b e' (sym x ∙ sym (locked_same e)))
    ]
    | inr (apart, e) ↦ elim (set_phase-locked i k (locked cart) w.phase b h') [
      | inl (same', e') ↦ (λ x. free j (λ q. differs (q ∙ same')) a e (x ∙ sym (locked_same e')))
      | inr (apart', e') ↦ safe.lock_apart j k a b differs e e'
    ]
  ];
}

ordered-IsOrderedOnce :
    (t : Tables) (cart_id : String) (now : ℕ) (order : Order)
    → order.cart_id ≡ cart_id
    → active_rows cart_id t.carts ≡ 1
    → IsOrderedOnce t
    → IsOrderedOnce (written cart_id now t order)
ordered-IsOrderedOnce t cart_id now order e one once id =
    let added : length (orders_of id (t.orders ++ order ∷ []))
        ≡ length (orders_of id t.orders) + (if cart_id =ₛ id then 1 else 0) =
      orders_of-add t.orders order id
      ∙ ap (λ c. length (orders_of id t.orders) + (if c =ₛ id then 1 else 0)) e in
    elim (Bool-cases (cart_id =ₛ id)) [
      | inl same ↦
          let same_id : cart_id ≡ id = (eq_iff cart_id id).0 same in
          let none_left : active_rows id (written cart_id now t order).carts ≡ 0 =
            subst
              (λ c.
                active_rows c (update_where (is_still_active cart_id) (completed_at now) t.carts)
                ≡ 0)
              same_id (completed_none cart_id now t.carts) in
          let was_one : active_rows id t.carts ≡ 1 =
            subst (λ c. active_rows c t.carts ≡ 1) same_id one in
          let grown = rw same at added in omega (arith, none_left, was_one, grown, once id)
      | inr differs ↦
          let kept : active_rows id (written cart_id now t order).carts ≡ active_rows id t.carts =
            completed_others cart_id id now t.carts differs in
          let same = rw differs at added in omega (arith, kept, same, once id)
    ]

commits-IsSafe :
    (w : World) (i : ℕ) (cart : Cart) (now : ℕ) (order : Order)
    → order.cart_id ≡ cart.id
    → w.phase i ≡ locked cart
    → IsSafe w
    → IsSafe
        (record { tables = written cart.id now w.tables order; phase = set_phase i ended w.phase })
commits-IsSafe w i cart now order e mine safe =
    let kept = unlocked-IsSafe w i ended (λ other h. cc) safe in
    record {
      once =
          ordered-IsOrderedOnce w.tables cart.id now order e (safe.lock_active i cart mine)
            safe.once;
      lock_active = λ j other h. elim (set_phase-locked i j ended w.phase other h) [
        | inl (same, k) ↦ absurd (ended_apart k)
        | inr (differs, k) ↦
            completed_others cart.id other.id now w.tables.carts
              (apart_ids (safe.lock_apart i j cart other differs mine k))
            ∙ safe.lock_active j other k
      ];
      lock_apart = kept.lock_apart;
    }

edits-IsSafe :
    (w : World) (t : Tables)
    → t.orders ≡ w.tables.orders
    → ((id : String) → active_rows id t.carts ≡ active_rows id w.tables.carts)
    → IsSafe w
    → IsSafe (record { tables = t; phase = w.phase })
edits-IsSafe w t same counts safe = record {
  once = λ id. rw (same, counts id) (safe.once id);
  lock_active = λ j cart h. counts cart.id ∙ safe.lock_active j cart h;
  lock_apart = safe.lock_apart;
}

module _ (user payment_method : ℕ → String) where
  Step-IsSafe : (w v : World) → Step user payment_method w v → IsSafe w → IsSafe v
  unfolding new_order
  Step-IsSafe _ _ (reads w i cart h read) safe =
      unlocked-IsSafe w i (found cart) (λ other e. cc) safe
  Step-IsSafe _ _ (updates w i cart h free one) safe = locks-IsSafe w i cart free one safe
  Step-IsSafe _ _ (commits w i cart id now now' h) safe =
      commits-IsSafe w i cart now (new_order id now' (user i) cart (payment_method i)) refl h safe
  Step-IsSafe _ _ (rolls_back w i) safe = unlocked-IsSafe w i ended (λ other e. cc) safe
  Step-IsSafe _ _ (edits w tables same counts) safe = edits-IsSafe w tables same counts safe

  Reach-IsSafe : (w v : World) → Reach user payment_method w v → IsSafe w → IsSafe v
  Reach-IsSafe _ _ (here w) safe = safe
  Reach-IsSafe _ _ (next w u v reach step) safe = Step-IsSafe u v step (Reach-IsSafe w u reach safe)

  pub reached-IsSafe :
      (t : Tables) (w : World)
      → IsOrderedOnce t
      → Reach user payment_method (record { tables = t; phase = λ i. began }) w
      → IsSafe w
  reached-IsSafe t w once reach =
      Reach-IsSafe (record { tables = t; phase = λ i. began }) w reach
        (record {
          once = once;
          lock_active = λ i cart h. absurd (began_apart h);
          lock_apart = λ i j a b differs h k. absurd (began_apart h);
        })

  -- However many checkouts run at once, and however they interleave: from tables in which every cart has
  -- at most one order, and none if it is active, with every checkout at its start, no cart ever has two
  -- orders, and one that has an order is not active.
  pub one_order :
      (t : Tables) (w : World)
      → IsOrderedOnce t
      → Reach user payment_method (record { tables = t; phase = λ i. began }) w
      → IsOrderedOnce w.tables
  one_order t w once reach = (reached-IsSafe t w once reach).once
