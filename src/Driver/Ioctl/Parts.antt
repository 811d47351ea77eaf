-- ===== src/Driver/Ioctl/Parts.antt =====
-- The two parts of a BINDER_WRITE_READ of module/new/binder.c.
use android_binder_ipc.Common.{◌&&◌, ◌∙◌, Result, ok, err}
use android_binder_ipc.Common.Int.{pos, ltb_ℤ}
use android_binder_ipc.Driver.World.{World, M, Exit, back, stuck, pure, attempt, ◌>>=◌}
use android_binder_ipc.Driver.Keeps.{Keeps, Behind, pure-Keeps, bool-Keeps, bind-Keeps}
use android_binder_ipc.Driver.Keeps.Quiet.{IsQuiet}
use android_binder_ipc.Driver.Write.Balance.{writes_balance}
use android_binder_ipc.Driver.Read.Balance.{reads-IsQuiet}
use android_binder_ipc.Driver.Ioctl.{Bwr, Env, write_part, read_part, cmd_write_read}

-- A call that always leaves what it found keeps that of any earlier state.
frame :
    {A : Type 0} (v : World) (m : M A)
    → ((w : World) → Behind (IsQuiet w) (m w))
    → Keeps (IsQuiet v) m
unfolding IsQuiet
frame {A} v m f = record { at = λ w h. go w h (m w) (f w) }
  where
    go : (w : World) → IsQuiet v w → (x : Exit A) → Behind (IsQuiet w) x → Behind (IsQuiet v) x
    go w (l, b, q, t, u) (back r w') (l', b', q', t', u') = (l' ∙ l, b' ∙ b, q' ∙ q, t' ∙ t, u' ∙ u)
    go w h stuck h' = tt

module _ (v : World) (env : Env) where
  write_part-IsQuiet : (b : Bwr) → Keeps (IsQuiet v) (write_part env b)
  unfolding write_part
  write_part-IsQuiet b =
      bool-Keeps (ltb_ℤ (pos 0) b.write_size && ltb_ℤ b.write_consumed b.write_size) pure-Keeps
        (bind-Keeps (frame v _ (writes_balance env.fget _ _)) (λ r. pure-Keeps))

  read_part-IsQuiet : (b : Bwr) → Keeps (IsQuiet v) (read_part env b)
  unfolding read_part
  read_part-IsQuiet b =
      bool-Keeps (ltb_ℤ (pos 0) b.read_size && ltb_ℤ b.read_consumed b.read_size) pure-Keeps
        (bind-Keeps (frame v _ (reads-IsQuiet env.rounds env.unused_fd env.n0 _)) (λ r. pure-Keeps))

-- A call that is no error, and the state behind it.
abbrev pub Lands : {A : Type 0} → (World → Type 0) → Exit A → Type 0
Lands P (back (ok a) w) = P w
Lands P (back (err e) w) = ⊥
Lands P stuck = Unit

module _ (P : World → Type 0) where
  attempt-Lands : {A : Type 0} (m : M A) → Keeps P m → (w : World) → P w → Lands P (attempt m w)
  attempt-Lands {A} m k w h = go (m w) (k.at w h)
    where
      go :
          (x : Exit A)
          → Behind P x
          → Lands P
              (elim x as (λ y. Exit (Result A)) [ back r w' ↦ back (ok r) w' | stuck ↦ stuck ])
      go (back r w') h = h
      go stuck h = tt

  bind-Lands :
      {A B : Type 0} (m : M A) (f : A → M B) (w : World)
      → Lands P (m w)
      → ((a : A) (w : World) → P w → Lands P (f a w))
      → Lands P ((m >>= f) w)
  bind-Lands {A} {B} m f w h k = go (m w) h
    where
      go :
          (x : Exit A)
          → Lands P x
          → Lands P (elim x as (λ y. Exit B) [
            | back r w' ↦ elim r [ ok a ↦ f a w' | err e ↦ back (err e) w' ]
            | stuck ↦ stuck
          ])
      go (back (ok a) w') h = k a w' h
      go (back (err e) w') h = absurd h
      go stuck h = tt

  -- What follows such a call runs in any case.
  pub after :
      {A B : Type 0} (Q : World → Type 0) (m : M A) (f : A → M B) (w : World)
      → Lands P (m w)
      → ((a : A) (w : World) → P w → Behind Q (f a w))
      → Behind Q ((m >>= f) w)
  after {A} {B} Q m f w h k = go (m w) h
    where
      go :
          (x : Exit A)
          → Lands P x
          → Behind Q (elim x as (λ y. Exit B) [
            | back r w' ↦ elim r [ ok a ↦ f a w' | err e ↦ back (err e) w' ]
            | stuck ↦ stuck
          ])
      go (back (ok a) w') h = k a w' h
      go (back (err e) w') h = absurd h
      go stuck h = tt

pub cmd_write_read-Lands :
    (v : World) (env : Env) (b : Bwr) (w : World)
    → IsQuiet v w
    → Lands (IsQuiet v) (cmd_write_read env b w)
unfolding cmd_write_read
cmd_write_read-Lands v env b w h =
    bind-Lands (IsQuiet v) (attempt (write_part env b)) _ w
      (attempt-Lands (IsQuiet v) (write_part env b) (write_part-IsQuiet v env b) w h) written
  where
    has_read :
        (b : Bwr) (r : Result Bwr) (w : World)
        → IsQuiet v w
        → Lands (IsQuiet v) (
            (elim r as (λ x. M (Bwr × Result (Unit {0}))) [
              | err e ↦ pure (b, err e)
              | ok b'' ↦ pure (b'', ok tt)
            ])
              w)
    has_read b (ok b'') w h = h
    has_read b (err e) w h = h

    written :
        (r : Result Bwr) (w : World)
        → IsQuiet v w
        → Lands (IsQuiet v) (
            (elim r as (λ x. M (Bwr × Result (Unit {0}))) [
              | err e ↦ pure (b, err e)
              | ok b' ↦ attempt (read_part env b') >>= (λ r'.
                  elim r' as (λ x. M (Bwr × Result (Unit {0}))) [
                    | err e ↦ pure (b', err e)
                    | ok b'' ↦ pure (b'', ok tt)
                  ])
            ])
              w)
    written (err e) w h = h
    written (ok b') w h =
        bind-Lands (IsQuiet v) (attempt (read_part env b')) _ w
          (attempt-Lands (IsQuiet v) (read_part env b') (read_part-IsQuiet v env b') w h)
          (has_read b')
