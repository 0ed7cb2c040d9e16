-- ===== src/Checkout/Store/Settling.antt =====
-- How a chain of database calls settles: with a value and tables of which a predicate holds, or with an
-- error of a kind.
use mathlib.Core.Path.{subst}
use study_microsservices_nod.Base.{
  String, ◌≡◌, refl, sym, ◌⊎◌, inl, inr, Action, ok, err, Error, query_failed, Result, ◌>>=◌,
}
use study_microsservices_nod.Checkout.Store.{Tables, Manager, IsManager, Answers}

-- The database refused.
abbrev pub IsRefusal : Error → Type 0
IsRefusal e = (code : String) × (e ≡ query_failed code)

module _ {D : Type 0} (view : D → Tables) (E : Error → Type 0) where
  abbrev pub Settles : {A : Type 0} → Result A × D → (A → Tables → Type 0) → Type 0
  Settles {A = A} x Q =
      ((a : A) × (x.0 ≡ ok a) × Q a (view x.1)) ⊎ ((e : Error) × E e × (x.0 ≡ err e))

  -- One call after another.
  pub settle_bind :
      {A B : Type 0} (call : Action D A) (next : A → Action D B) (d : D) (P : A → Tables → Type 0)
      (Q : B → Tables → Type 0)
      → Settles (call d) P
      → ((a : A) (d' : D) → P a (view d') → Settles (next a d') Q)
      → Settles ((call >>= next) d) Q
  settle_bind call next d P Q (inl (a, e, p)) then = rw e (then a (call d).1 p)
  settle_bind call next d P Q (inr (e, kind, h)) then = rw h (inr (e, kind, refl))

  pub settle_weaken :
      {A : Type 0} (x : Result A × D) (P Q : A → Tables → Type 0)
      → Settles x P
      → ((a : A) (t : Tables) → P a t → Q a t)
      → Settles x Q
  settle_weaken x P Q (inl (a, e, p)) then = inl (a, e, then a (view x.1) p)
  settle_weaken x P Q (inr bad) then = inr bad

  module _ (refusals : (e : Error) → IsRefusal e → E e) where
    pub settle-Answers :
        {A : Type 0} (x : Result A × D) (a : A) (before after : Tables)
        → Answers view x a before after
        → Settles x (λ b t. (b ≡ a) × (t ≡ after))
    settle-Answers x a before after (inl (e, t)) = inl (a, e, (refl, t))
    settle-Answers x a before after (inr ((code, e), t)) =
        inr (query_failed code, refusals (query_failed code) (code, refl), e)

    pub settle_call :
        {A : Type 0} (x : Result A × D) (a : A) (before after : Tables) (Q : A → Tables → Type 0)
        → Answers view x a before after
        → Q a after
        → Settles x Q
    settle_call x a before after Q (inl (e, t)) q = inl (a, e, subst (λ u. Q a u) (sym t) q)
    settle_call x a before after Q (inr ((code, e), t)) q =
        inr (query_failed code, refusals (query_failed code) (code, refl), e)

-- Like `Settles`, but an error has left the tables as they were.
abbrev pub Atomic :
    {D A : Type 0} (view : D → Tables) (E : Error → Type 0)
    → Result A × D
    → Tables
    → (A → Tables → Type 0)
    → Type 0
Atomic {A = A} view E x before Q =
    ((a : A) × (x.0 ≡ ok a) × Q a (view x.1))
    ⊎ ((e : Error) × E e × (x.0 ≡ err e) × (view x.1 ≡ before))

-- A transaction makes its body atomic.
pub transaction-Atomic :
    {D A : Type 0} (m : Manager D) (laws : IsManager m) (E : Error → Type 0)
    (refusals : (e : Error) → IsRefusal e → E e) (body : Action D A) (d : D)
    (Q : A → Tables → Type 0)
    → Settles m.view E (body d) Q
    → Atomic m.view E (m.transaction body d) (m.view d) Q
transaction-Atomic m laws E refusals body d Q (inl (a, e, q)) = elim (laws.commits body a d e) [
  | inl (done, same) ↦ inl (a, done, subst (λ t. Q a t) (sym same) q)
  | inr ((code, refused), same) ↦
      inr (query_failed code, refusals (query_failed code) (code, refl), refused, same)
]
transaction-Atomic m laws E refusals body d Q (inr (e, kind, h)) =
    let (thrown, same) = laws.rolls_back body e d h in inr (e, kind, thrown, same)
