-- ===== src/Driver/Keeps.antt =====
-- What calls of the driver in module/new/binder.c leave as it is, one rule for each way to build a
-- call.
pub mod Quiet
pub mod Objects
pub mod Reading
pub mod Switch
pub mod Writing
pub mod Commands
use android_binder_ipc.Common.{
  ℕ, Bool, true, false, Option, none, some, List, [], ◌∷◌, ◌++◌, ◌≡◌, refl, Result, ok, err, Errno,
  if◌then◌else◌,
}
use android_binder_ipc.Common.Int.{ℤ}
use android_binder_ipc.Driver.World.{
  World, M, Exit, back, stuck, pure, fail, ◌>>=◌, ◌>>◌, attempt, get, kmalloc, put_user,
  copy_from_user, update_proc, update_thread, result,
}

-- The state behind a call satisfies the predicate, if the call comes back.
abbrev pub Behind {ℓ} : {A : Type ℓ} → (World → Type 0) → Exit A → Type 0
Behind P (back r w) = P w
Behind P stuck = Unit

-- What a call returns satisfies the predicate, if it returns no error.
abbrev pub Returns : {A : Type 0} → (A → Type 0) → Exit A → Type 0
Returns Q (back (ok a) w) = Q a
Returns Q (back (err e) w) = Unit
Returns Q stuck = Unit

pub bind-Returns :
    {A B : Type 0} (Q : B → Type 0) (m : M A) (f : A → M B)
    → ((a : A) (w : World) → Returns Q (f a w))
    → (w : World) → Returns Q ((m >>= f) w)
bind-Returns {A} {B} Q m f h w = go (m w)
  where
    go :
        (x : Exit A)
        → Returns Q (elim x as (λ y. Exit B) [
          | back r w' ↦ elim r [ ok a ↦ f a w' | err e ↦ back (err e) w' ]
          | stuck ↦ stuck
        ])
    go (back (ok a) w') = h a w'
    go (back (err e) w') = tt
    go stuck = tt

-- `m` keeps `P`, whether it returns or fails.
pub record Keeps {ℓ} {A : Type ℓ} (P : World → Type 0) (m : M A) : Type ℓ where
  pub at : (w : World) → P w → Behind P (m w)

module _ {ℓ} {A : Type ℓ} {P : World → Type 0} where
  pub pure-Keeps : {a : A} → Keeps P (pure a)
  pure-Keeps = record { at = λ w h. h }

  pub fail-Keeps : {e : Errno} → Keeps P (fail {A = A} e)
  fail-Keeps = record { at = λ w h. h }

  pub result-Keeps : {r : Result A} → Keeps P (result r)
  result-Keeps = record { at = λ w h. h }

  pub stuck-Keeps : Keeps {A = A} P (λ w. stuck)
  stuck-Keeps = record { at = λ w h. tt }

  pub attempt-Keeps : {m : M A} → Keeps P m → Keeps P (attempt m)
  attempt-Keeps {m = m} k = record { at = λ w h. go (m w) (k.at w h) }
    where
      go :
          (x : Exit A)
          → Behind P x
          → Behind P (elim x [ back r w' ↦ back (ok r) w' | stuck ↦ stuck ])
      go (back r w') h = h
      go stuck h = tt

  pub if-Keeps : (b : Bool) {m n : M A} → Keeps P m → Keeps P n → Keeps P (if b then m else n)
  if-Keeps true km kn = km
  if-Keeps false km kn = kn

  pub bool-Keeps :
      (b : Bool) {m n : M A} → Keeps P m → Keeps P n → Keeps P (elim b [ false ↦ m | true ↦ n ])
  bool-Keeps true km kn = kn
  bool-Keeps false km kn = km

  -- A call that looks at the state first.
  pub here-Keeps : {m : World → M A} → ((w : World) → Keeps P (m w)) → Keeps P (λ w. m w w)
  here-Keeps k = record { at = λ w h. (k w).at w h }

  pub then-Keeps : {m : M (Unit {0})} {n : M A} → Keeps P m → Keeps P n → Keeps P (m >> n)
  then-Keeps {m = m} {n = n} km kn = record { at = λ w h. go (m w) (km.at w h) }
    where
      go :
          (x : Exit (Unit {0}))
          → Behind P x
          → Behind P (elim x [
            | back r w' ↦ elim r [ ok a ↦ n w' | err e ↦ back (err e) w' ]
            | stuck ↦ stuck
          ])
      go (back (ok a) w') h = kn.at w' h
      go (back (err e) w') h = h
      go stuck h = tt

pub Behind-imp :
    {A : Type 0} {P Q : World → Type 0}
    → ((w : World) → P w → Q w)
    → (x : Exit A) → Behind P x
    → Behind Q x
Behind-imp f (back r w) h = f w h
Behind-imp f stuck h = tt

module _ {ℓ} {A : Type ℓ} (P : World → Type 0) where
  pub if-Behind :
      (b : Bool) (x y : Exit A) → Behind P x → Behind P y → Behind P (if b then x else y)
  if-Behind true x y hx hy = hx
  if-Behind false x y hx hy = hy

  pub option-Behind :
      {B : Type 0} (o : Option B) (x : Exit A) (f : B → Exit A)
      → Behind P x
      → ((b : B) → Behind P (f b))
      → Behind P (elim o [ none ↦ x | some b ↦ f b ])
  option-Behind none x f hx hf = hx
  option-Behind (some b) x f hx hf = hf b

module _ {ℓ κ} {A : Type ℓ} {B : Type κ} {P : World → Type 0} where
  pub option-Keeps :
      (o : Option B) {m : M A} {f : B → M A}
      → Keeps P m
      → ((b : B) → Keeps P (f b))
      → Keeps P (elim o [ none ↦ m | some b ↦ f b ])
  option-Keeps none km kf = km
  option-Keeps (some b) km kf = kf b

  pub sum-Keeps :
      (r : Result B) {f : B → M A} {g : Errno → M A}
      → ((b : B) → Keeps P (f b))
      → ((e : Errno) → Keeps P (g e))
      → Keeps P (elim r [ ok b ↦ f b | err e ↦ g e ])
  sum-Keeps (ok b) kf kg = kf b
  sum-Keeps (err e) kf kg = kg e

  pub bind-Keeps :
      {m : M B} {f : B → M A} → Keeps P m → ((b : B) → Keeps P (f b)) → Keeps P (m >>= f)
  bind-Keeps {m = m} {f = f} km kf = record { at = λ w h. go (m w) (km.at w h) }
    where
      go :
          (x : Exit B)
          → Behind P x
          → Behind P (elim x [
            | back r w' ↦ elim r [ ok a ↦ f a w' | err e ↦ back (err e) w' ]
            | stuck ↦ stuck
          ])
      go (back (ok a) w') h = (kf a).at w' h
      go (back (err e) w') h = h
      go stuck h = tt

pub get-Keeps : {P : World → Type 0} → Keeps P get
get-Keeps = record { at = λ w h. h }

pub ruleset keeps_rules = (
  pure-Keeps, fail-Keeps, result-Keeps, stuck-Keeps, get-Keeps, attempt-Keeps, if-Keeps, bool-Keeps,
  bind-Keeps, then-Keeps,
)
