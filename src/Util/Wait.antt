-- ===== src/Util/Wait.antt =====
-- util.c: `wait_or_whine`, which waits for a child process.
use powaur.Base.{ℕ, ◌-◌, ◌<◌, ◌≡◌, Bool, true, false, List, [], ◌∷◌, ◌↔◌}
use powaur.Base.{if◌then◌else◌, ltb, ◌==◌, arith, Run, spin, ok}

-- An `int`; `negsuc n` is -(n + 1).
pub data ℤ : Type 0 where
  pos negsuc : ℕ → ℤ

-- What the macros of the C library say of a status, and what `waitpid` comes to: -1 with EINTR, -1
-- with another error, the id of another process, the child with its status.
pub data Status : Type 0 where
  signaled : ℕ → Status
  exited : ℕ → Status
  stopped : Status

pub data Wait : Type 0 where
  interrupted failed other_pid : Wait
  ended : Status → Wait

-- `error` returns -1.
abbrev pub error_ret : ℤ
error_ret = negsuc 0

unfoldable pub status_ret : Status → ℤ
status_ret (signaled sig) = if ltb sig 127 then negsuc (126 - sig) else pos (sig - 127)
status_ret (exited code) = if code == 127 then error_ret else pos code
status_ret stopped = error_ret

-- The calls of `waitpid` come to the members of the list; behind the last one it waits for ever.
unfoldable pub wait_or_whine : List Wait → Run ℤ
unfolding status_ret
wait_or_whine [] = spin
wait_or_whine (interrupted ∷ waits) = wait_or_whine waits
wait_or_whine (failed ∷ waits) = ok error_ret
wait_or_whine (other_pid ∷ waits) = ok error_ret
wait_or_whine (ended status ∷ waits) = ok (status_ret status)

-- `if (ret)`
abbrev pub is_zero_int : ℤ → Bool
is_zero_int (pos n) = n == 0
is_zero_int (negsuc n) = false

-- A child that exits with 0, behind interrupted calls.
abbrev pub Succeeds : List Wait → Type 0
Succeeds [] = ⊥
Succeeds (interrupted ∷ waits) = Succeeds waits
Succeeds (ended (exited code) ∷ waits) = code ≡ 0
Succeeds (_ ∷ waits) = ⊥

-- A signal has a number below 127, as `WTERMSIG` gives it.
abbrev pub IsSignals : List Wait → Type 0
IsSignals [] = Unit
IsSignals (ended (signaled sig) ∷ waits) = (sig < 127) × IsSignals waits
IsSignals (_ ∷ waits) = IsSignals waits

abbrev pub IsSuccess : Run ℤ → Type 0
IsSuccess (ok r) = is_zero_int r ≡ true
IsSuccess _ = ⊥

-- `wait_or_whine` returns 0 exactly if the child exits with 0: not for a signal, for another status,
-- for a failure of `waitpid`, nor where the command could not be executed. This supposes that the
-- signals have numbers below 127.
pub wait_or_whine-Succeeds :
    (waits : List Wait) → IsSignals waits → IsSuccess (wait_or_whine waits) ↔ Succeeds waits
unfolding wait_or_whine
wait_or_whine-Succeeds [] s = (λ h. h, λ h. h)
wait_or_whine-Succeeds (interrupted ∷ waits) s = wait_or_whine-Succeeds waits s
wait_or_whine-Succeeds (failed ∷ waits) s = ((λ h. cc), (λ h. elim h [ ]))
wait_or_whine-Succeeds (other_pid ∷ waits) s = ((λ h. cc), (λ h. elim h [ ]))
wait_or_whine-Succeeds (ended stopped ∷ waits) s = ((λ h. cc), (λ h. elim h [ ]))
wait_or_whine-Succeeds (ended (signaled sig) ∷ waits) s = (λ h. ground (arith, h), λ h. elim h [ ])
wait_or_whine-Succeeds (ended (exited code) ∷ waits) s =
    (λ h. ground (arith, h), λ h. ground (arith, h))
