-- ===== src/Checkout/Ordering/Concurrent/Waiting.antt =====
-- A checkout that waits for the lock of a row, and the one that holds it.
use mathlib.Core.Path.{subst}
use study_microsservices_nod.Base.{ℕ, ◌≡◌, ◌≢◌, sym, ◌∙◌, String, arith, inl, inr}
use study_microsservices_nod.Checkout.Orders.{Cart, new_order}
use study_microsservices_nod.Checkout.Store.{Tables}
use study_microsservices_nod.Checkout.Ordering.Placing.{written}
use study_microsservices_nod.Checkout.Ordering.Concurrent.{
  Phase, began, found, locked, ended, World, set_phase, active_rows, IsFree, Step, updates, commits,
  rolls_back, Reach, IsOrderedOnce, IsSafe,
}
use study_microsservices_nod.Checkout.Ordering.Concurrent.Safety.{
  completed_none, set_phase-locked, ended_apart, reached-IsSafe,
}

set_phase_other :
    (i j : ℕ) (p : Phase) (phase : ℕ → Phase) → i ≢ j → set_phase i p phase j ≡ phase j
set_phase_other i j p phase differs = ground arith

-- Nobody but its holder has the lock, so it is free when the holder has ended.
ended_frees :
    (w : World) (i j : ℕ) (cart other : Cart) (t : Tables)
    → IsSafe w
    → w.phase j ≡ locked other
    → other.id ≡ cart.id
    → IsFree (record { tables = t; phase = set_phase j ended w.phase }) i cart.id
ended_frees w i j cart other t safe mine same k apart c h =
    elim (set_phase-locked j k ended w.phase c h) [
      | inl (first, e) ↦ absurd (ended_apart e)
      | inr (differs, e) ↦ (λ x. safe.lock_apart j k other c differs mine e (same ∙ sym x))
    ]

module _ (user payment_method : ℕ → String) where
  -- However checkouts interleave: one that waits for the lock of its cart's row is freed by the next
  -- step of the one that holds it. If that one rolls back, the cart is still active and the waiting one
  -- can update it at once. If it commits, no active row is left, so that the update of the one that
  -- waited affects none.
  pub waiting_resolved :
      (t : Tables) (w : World) (i j : ℕ) (cart other : Cart)
      → IsOrderedOnce t
      → Reach user payment_method (record { tables = t; phase = λ k. began }) w
      → i ≢ j
      → w.phase i ≡ found cart
      → w.phase j ≡ locked other
      → other.id ≡ cart.id
      → let given_up : World = record { tables = w.tables; phase = set_phase j ended w.phase } in
        (Step user payment_method w given_up
          × Step user payment_method given_up
              (record { tables = w.tables; phase = set_phase i (locked cart) given_up.phase }))
        × ((id : String) (now now' : ℕ)
            → let placed : World = record {
              tables =
                  written other.id now w.tables
                    (new_order id now' (user j) other (payment_method j));
              phase = set_phase j ended w.phase;
            } in
              Step user payment_method w placed
              × IsFree placed i cart.id
              × (active_rows cart.id placed.tables.carts ≡ 0))
  waiting_resolved t w i j cart other once reach differs waits holds same =
      let safe = reached-IsSafe user payment_method t w once reach in
      let free = λ (u : Tables). ended_frees w i j cart other u safe holds same in
      let still_waits = set_phase_other j i ended w.phase (λ e. differs (sym e)) ∙ waits in
      let active : active_rows cart.id w.tables.carts ≡ 1 =
        subst (λ id. active_rows id w.tables.carts ≡ 1) same (safe.lock_active j other holds) in
      (
        (rolls_back w j, updates _ i cart still_waits (free w.tables) active),
        λ id now now'. (
          commits w j other id now now' holds,
          free
              (written other.id now w.tables (new_order id now' (user j) other (payment_method j))),
          subst
              (λ c.
                active_rows c
                  (written other.id now w.tables
                    (new_order id now' (user j) other (payment_method j))).carts
                ≡ 0)
              same (completed_none other.id now w.tables.carts),
        ),
      )
