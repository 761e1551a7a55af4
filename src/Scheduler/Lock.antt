-- ===== src/Scheduler/Lock.antt =====
-- The lock of core/kernel/core/scheduler.c: it counts its depth and keeps interrupts off.
-- `irq_save`, `irq_restore` and `irq_are_enabled` of core/kernel/arch/i386/irq.asm read and write the
-- interrupt flag, which is a field here; the flags that they pass are that flag.
use liam_os.Base.{
  ==→≡, Bool, Option, arith, false, if_cases, if_false, if◌then◌else◌, inc32, ltb, none, not, refl,
  some, subst, suc, true, zero, ℕ, ≡→==, ≢→==, ◌&&◌, ◌+◌, ◌-◌, ◌<◌, ◌==◌, ◌>>=◌, ◌^◌, ◌∙◌, ◌≡◌,
}

-- `scheduler_lock_info_t`, with the interrupt flag of the processor.
pub record Lock : Type 0 where
  pub locked : Bool
  pub enabled_now : Bool
  pub depth : ℕ
  pub saved_flags : Bool
  pub lock_count : ℕ
  pub unlock_count : ℕ
  pub max_depth : ℕ
  pub failed_unlocks : ℕ
  pub test_runs : ℕ
  pub interrupts : Bool

-- `scheduler_lock`
unfoldable pub lock : Lock → Lock
lock l = record l {
  interrupts = false;
  saved_flags = if l.depth == 0 then l.interrupts else l.saved_flags;
  depth = inc32 l.depth;
  locked = true;
  lock_count = inc32 l.lock_count;
  max_depth = if ltb l.max_depth (inc32 l.depth) then inc32 l.depth else l.max_depth;
  enabled_now = false;
}

-- The end of `scheduler_unlock`, with the depth counted down.
abbrev release : Lock → Lock
release l =
    if l.depth == 0
    then record l {
      saved_flags = false;
      locked = false;
      interrupts = l.saved_flags;
      enabled_now = l.saved_flags;
    }
    else record l { enabled_now = l.interrupts }

-- `scheduler_unlock`; `none`: its assertion failed, and the kernel has stopped.
unfoldable pub unlock : Lock → Option Lock
unlock l =
    if l.depth == 0
    then none
    else some (release (record l { depth = l.depth - 1; unlock_count = inc32 l.unlock_count }))

abbrev is_same : Bool → Bool → Bool
is_same true b = b
is_same false b = not b

-- `scheduler_run_lock_test`: its result and the lock. `none`: an assertion failed.
unfoldable pub run_lock_test : Lock → Option (Bool × Lock)
unfolding lock unlock
run_lock_test l = do
  let once = lock (record l { test_runs = inc32 l.test_runs })
  let twice = lock once
  left ← unlock twice
  after ← unlock left
  some (
    once.locked
        && ((once.depth == 1)
            && ((twice.depth == 2)
                && ((left.depth == 1)
                    && (not once.interrupts && is_same l.interrupts after.interrupts)))),
    record after { enabled_now = after.interrupts },
  )

-- Calls of `scheduler_lock` or `scheduler_unlock` in a row.
abbrev pub locks : ℕ → Lock → Lock
locks zero l = l
locks (suc n) l = lock (locks n l)

abbrev pub unlocks : ℕ → Lock → Option Lock
unlocks zero l = some l
unlocks (suc n) l = do k ← unlock l; unlocks n k

-- The lock after `n` more calls of `scheduler_lock` than of `scheduler_unlock`, from a lock `l` that
-- was free: interrupts are off while it is held, and as before once it is free again.
pub record IsLocked (n : ℕ) (l k : Lock) : Type 0 where
  pub depth_counted : k.depth ≡ n
  pub off : 0 < n → k.interrupts ≡ false
  pub flag_saved : 0 < n → k.saved_flags ≡ l.interrupts
  pub restored : n ≡ 0 → k.interrupts ≡ l.interrupts

lock-saved : (n : ℕ) (l k : Lock) → IsLocked n l k → (lock k).saved_flags ≡ l.interrupts
unfolding lock
lock-saved zero l k i =
    let at : (k.depth == 0) ≡ true = ≡→== k.depth 0 i.depth_counted in rw at (i.restored refl)
lock-saved (suc n) l k i =
    if_false (k.depth == 0) k.interrupts k.saved_flags
      (≢→== k.depth 0 (λ e. omega (arith, i.depth_counted, e)))
    ∙ i.flag_saved (omega arith)

lock-IsLocked : (n : ℕ) (l k : Lock) → n + 1 < 2 ^ 32 → IsLocked n l k → IsLocked (suc n) l (lock k)
unfolding lock
lock-IsLocked n l k small i = record {
  depth_counted = ground (arith, i.depth_counted, small);
  off = λ _. refl;
  flag_saved = λ _. unfold lock in lock-saved n l k i;
  restored = λ e. absurd (omega (arith, e));
}

locks-IsLocked : (n : ℕ) (l : Lock) → n < 2 ^ 32 → l.depth ≡ 0 → IsLocked n l (locks n l)
locks-IsLocked zero l small e = record {
  depth_counted = e;
  off = λ h. absurd (omega (arith, h));
  flag_saved = λ h. absurd (omega (arith, h));
  restored = λ _. refl;
}
locks-IsLocked (suc n) l small e =
    lock-IsLocked n l (locks n l) (omega (arith, small))
      (locks-IsLocked n l (omega (arith, small)) e)

-- A lock that calls of `scheduler_unlock` have left, none of which failed its assertion.
abbrev pub Leaves : ℕ → Lock → Option Lock → Type 0
Leaves n l none = ⊥
Leaves n l (some k) = IsLocked n l k

release-IsLocked :
    (n : ℕ) (l k : Lock)
    → IsLocked (suc n) l k
    → (d c : ℕ) → d ≡ n
    → IsLocked n l (release (record k { depth = d; unlock_count = c }))
release-IsLocked zero l k i d c e =
    let at : (d == 0) ≡ true = ≡→== d 0 e in
    rw at (record {
      depth_counted = e;
      off = λ h. absurd (omega (arith, h));
      flag_saved = λ h. absurd (omega (arith, h));
      restored = λ _. i.flag_saved (omega arith);
    })
release-IsLocked (suc n) l k i d c e =
    let at : (d == 0) ≡ false = ≢→== d 0 (λ z. omega (arith, e, z)) in
    rw at (record {
      depth_counted = e;
      off = λ _. i.off (omega arith);
      flag_saved = λ _. i.flag_saved (omega arith);
      restored = λ z. absurd (omega (arith, z));
    })

unlock-Leaves : (n : ℕ) (l k : Lock) → IsLocked (suc n) l k → Leaves n l (unlock k)
unfolding unlock
unlock-Leaves n l k i =
    if_cases (Leaves n l) (k.depth == 0) (λ e. omega (arith, ==→≡ k.depth 0 e, i.depth_counted))
      (λ _.
        release-IsLocked n l k i (k.depth - 1) (inc32 k.unlock_count)
          (omega (arith, i.depth_counted)))

after_unlock :
    (m n : ℕ) (l : Lock) (o : Option Lock)
    → Leaves (n + m) l o
    → ((k : Lock) → IsLocked (n + m) l k → Leaves n l (unlocks m k))
    → Leaves n l (o >>= unlocks m)
after_unlock m n l none h f = h
after_unlock m n l (some k) h f = f k h

unlocks-Leaves : (m n : ℕ) (l k : Lock) → IsLocked (n + m) l k → Leaves n l (unlocks m k)
unlocks-Leaves zero n l k i = subst (λ x. IsLocked x l k) (omega arith) i
unlocks-Leaves (suc m) n l k i =
    after_unlock m n l (unlock k)
      (unlock-Leaves (n + m) l k (subst (λ x. IsLocked x l k) (omega arith) i))
      (λ j h. unlocks-Leaves m n l j h)

-- From a lock that is free, after `n + m` calls of `scheduler_lock` and `m` of `scheduler_unlock` no
-- assertion has failed, the depth is `n`, interrupts are off if `n` is above 0, and if it is 0, they
-- are as they were at the start, whatever that was.
pub unlocks-locks :
    (m n : ℕ) (l : Lock) → l.depth ≡ 0 → n + m < 2 ^ 32 → Leaves n l (unlocks m (locks (n + m) l))
unlocks-locks m n l e small =
    unlocks-Leaves m n l (locks (n + m) l) (locks-IsLocked (n + m) l small e)
