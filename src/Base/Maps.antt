-- ===== src/Base/Maps.antt =====
-- A JavaScript `Map` keyed by strings: entries in insertion order, `set` in place.
use Prim.Native.String.{String}
use mathlib.Core.Path.{◌≡◌, refl}
use mathlib.Core.Option.{Option, none, some}
use mathlib.Core.List.{List, [], ◌∷◌}
use native.Mathlib.Omega.{arith}
use text.Mathlib.TextEquality.{eq_iff}
use text.Mathlib.TextPositions.{eq_refl}
use study_microsservices_nod.Base.Tests.{◌=ₛ◌, if◌then◌else◌}

abbrev pub Map {ℓ} : Type ℓ → Type ℓ
Map V = List (String × V)

module _ {ℓ} {V : Type ℓ} where
  -- `m.get(k)`
  unfoldable pub get : String → Map V → Option V
  get key [] = none
  get key ((this, content) ∷ rest) = if this =ₛ key then some content else get key rest

  -- `m.set(k, v)`
  unfoldable pub insert : String → V → Map V → Map V
  insert key v [] = (key, v) ∷ []
  insert key v ((this, old) ∷ rest) =
      if this =ₛ key then (this, v) ∷ rest else (this, old) ∷ insert key v rest

  -- `m.delete(k)`
  unfoldable pub delete : String → Map V → Map V
  delete key [] = []
  delete key ((this, old) ∷ rest) =
      if this =ₛ key then delete key rest else (this, old) ∷ delete key rest

  -- Reading back after a write, at any key.
  pub get-insert :
      (written read : String) (v : V) (m : Map V)
      → get read (insert written v m) ≡ (if written =ₛ read then some v else get read m)
  unfolding insert get
  get-insert written read v [] = refl
  get-insert written read v ((this, old) ∷ rest) = ground (
    arith,
    get-insert written read v rest,
    eq_iff this written,
    eq_iff this read,
    eq_iff written read,
  )

  pub get-delete :
      (deleted read : String) (m : Map V)
      → get read (delete deleted m) ≡ (if deleted =ₛ read then none else get read m)
  unfolding delete get
  get-delete deleted read [] = ground arith
  get-delete deleted read ((this, old) ∷ rest) = ground (
    arith,
    get-delete deleted read rest,
    eq_iff this deleted,
    eq_iff this read,
    eq_iff deleted read,
  )

  pub get-insert_self : (key : String) (v : V) (m : Map V) → get key (insert key v m) ≡ some v
  get-insert_self key v m = simp (eq_refl, get-insert)

  pub get-delete_self : (key : String) (m : Map V) → get key (delete key m) ≡ none
  get-delete_self key m = simp (eq_refl, get-delete)
