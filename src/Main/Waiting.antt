-- ===== src/Main/Waiting.antt =====
-- On how the command of main.go waits.
use jdwpfs.Base.{List, [], ◌∷◌, Bool, true, false, ◌&&◌, ◌||◌, ◌≡◌, refl, arith}
use jdwpfs.Main.{WaitEvent, signal, unmounted, wait}

abbrev pub signalled : List WaitEvent → Bool
signalled [] = false
signalled (signal ∷ events) = true
signalled (unmounted ∷ events) = signalled events

abbrev pub unmounted_outside : List WaitEvent → Bool
unmounted_outside [] = false
unmounted_outside (signal ∷ events) = unmounted_outside events
unmounted_outside (unmounted ∷ events) = true

-- Once the goroutine has received its signal in vain, only an unmount from outside ends the wait.
pub wait-received :
    (unmount_succeeds : Bool) (events : List WaitEvent)
    → wait unmount_succeeds true events ≡ unmounted_outside events
unfolding wait
wait-received ok [] = refl
wait-received ok (unmounted ∷ events) = refl
wait-received ok (signal ∷ events) = wait-received ok events

-- The wait ends if and only if the file system is unmounted from outside, or a signal arrives and
-- the one call of `Unmount` succeeds.
pub wait_lem :
    (unmount_succeeds : Bool) (events : List WaitEvent)
    → wait unmount_succeeds false events
      ≡ (unmounted_outside events || (unmount_succeeds && signalled events))
unfolding wait
wait_lem ok [] = ground arith
wait_lem ok (unmounted ∷ events) = ground arith
wait_lem ok (signal ∷ events) = ground (arith, wait-received ok events)
