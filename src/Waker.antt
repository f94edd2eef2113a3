-- ===== src/Waker.antt =====
-- cbits/extras.h and cbits/extras.c: the one-shot waker of a blocked Haskell thread, and the place
-- where cbits/stream.c and cbits/headers.c keep a registered one.
use hcurl.Prelude.{
  ℕ, Bool, true, false, ◌&&◌, not, List, [], ◌∷◌, Option, none, some, ◌==◌, if◌then◌else◌,
}

-- `hs_waker_t`; an `mvar` of 0 is a null `HsStablePtr`.
pub record Waker : Type 0 where
  pub mvar : ℕ
  pub capability : ℕ
  pub waked : Bool

-- A call of `hs_try_putmvar`: the capability and the pointer, which the call consumes.
abbrev pub Put : Type 0
Put = ℕ × ℕ

-- `wake_up_waker`: the calls that it makes, and the waker afterwards.
unfoldable pub wake_up_waker : Waker → List Put × Waker
wake_up_waker w =
    if not (w.mvar == 0) && not w.waked
    then ((w.capability, w.mvar) ∷ [], record w { waked = true })
    else ([], w)

-- A flag and a waker, such as `waiter_present` and `waiter`.
pub record Slot : Type 0 where
  pub present : Bool
  pub waker : Waker

abbrev pub empty_slot : Slot
empty_slot = record { present = false; waker = record { mvar = 0; capability = 0; waked = false } }

-- The assignments by which a `wait` function registers a waiter.
abbrev pub registered : ℕ → ℕ → Slot
registered mvar capability = record {
  present = true;
  waker = record { mvar = mvar; capability = capability; waked = false };
}

-- `wake_up_waker` of a local copy, if one was taken.
unfoldable pub wake_detached : Option Waker → List Put
unfolding wake_up_waker
wake_detached none = []
wake_detached (some w) = (wake_up_waker w).0
