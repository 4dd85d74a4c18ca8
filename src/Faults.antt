-- ===== src/Faults.antt =====
-- A call of a database under a fault: refused, or run with its reply lost.
use doki_core_backend.Errors.{Result, err}
use doki_core_backend.Reservations.{Fault, no_fault, refused, lost}

-- The outcome of a call that would turn `before` into the state of `out`.
unfoldable pub under : {A S : Type 0} → Fault → (before : S) → (out : Result A × S) → Result A × S
under no_fault before out = out
under (refused e) before out = (err e, before)
under (lost e) before out = (err e, out.1)

-- What holds of the state before a call and of the one that it would leave, holds after it; and a
-- good reply is the call's own.
pub under-keeps :
    {A S : Type 0} (P : S → Type 0) (f : Fault) (before : S) (out : Result A × S)
    → P before
    → P out.1
    → P (under f before out).1
unfolding under
under-keeps P no_fault before out h k = k
under-keeps P (refused e) before out h k = h
under-keeps P (lost e) before out h k = k
