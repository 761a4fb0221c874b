-- ===== src/Protocol/Lifetime/Kept.antt =====
-- What the calls on strong and weak references keep.
use biasedrc_rs.Common.{ℕ, suc, zero, ◌+◌, ◌-◌, ◌^◌, ◌<◌, ◌≡◌, refl, false, ◌==◌, arith}
use biasedrc_rs.Ids.{ShortThreadId, IsShortThreadId}
use biasedrc_rs.Words.Shared.{of_bool}
use biasedrc_rs.Header.{Build}
use biasedrc_rs.Brc.{downgrade, clone_weak, drop_weak}
use biasedrc_rs.Protocol.{System, Step, Reach, here, next}
use biasedrc_rs.Protocol.Safety.{destroyed_last, untouched_when_destroyed}
use biasedrc_rs.Protocol.Lifetime.{
  Lifetime, after_strong, LifetimeStep, strong, downgrade_strong, clone_of_weak, drop_of_weak,
  newborn, Life, start, step,
}

-- What every call keeps.
pub record IsLifetime (build : Build) (tid : ShortThreadId) (s : Lifetime) : Type 0 where
  pub reach : Reach build tid false s.system
  pub once : s.system.destroyed < 2
  pub counted : s.weak_count ≡ s.weaks + (1 - s.system.destroyed)
  pub released : s.released ≡ of_bool (s.weak_count == 0)
  pub small : s.weak_count < 2 ^ 31 + 1

module _ {build : Build} {tid : ShortThreadId} (h : IsShortThreadId tid) where
  Reach-once : {s : System} → Reach build tid false s → s.destroyed < 2
  Reach-once {s} r = destroyed_bound s.destroyed (λ d. (destroyed_last h r d).0)
    where
      destroyed_bound : (n : ℕ) → (0 < n → n ≡ 1) → n < 2
      destroyed_bound zero e = omega arith
      destroyed_bound (suc n) e = let one = e (omega arith) in omega (arith, one)

  alive-undestroyed : {s : System} → Reach build tid false s → 0 < s.handles → s.destroyed ≡ 0
  alive-undestroyed {s} r alive = contra s.destroyed (λ d. (destroyed_last h r d).1)
    where
      contra : (n : ℕ) → (0 < n → s.handles ≡ 0) → n ≡ 0
      contra zero e = refl
      contra (suc n) e = let none_left = e (omega arith) in absurd (omega (arith, none_left, alive))

  by_destroyed :
      {s : Lifetime} (t : System)
      → Reach build tid false t
      → t.destroyed < 2
      → s.system.destroyed ≡ 0
      → IsLifetime build tid s
      → IsLifetime build tid (after_strong s t)
  unfolding after_strong drop_weak
  by_destroyed {s} t r once fresh i = record {
    reach = ground (arith, r);
    once = ground (arith, once);
    counted = ground (arith, i.counted, i.small, once, fresh);
    released = ground (arith, i.counted, i.small, i.released, once, fresh);
    small = ground (arith, i.counted, i.small, once, fresh);
  }

  after_strong-IsLifetime :
      {s : Lifetime} {t : System}
      → IsLifetime build tid s
      → Step build tid false s.system t
      → IsLifetime build tid (after_strong s t)
  after_strong-IsLifetime {s} {t} i st =
      let r : Reach build tid false t = next i.reach st in
      let once = Reach-once r in
      let fresh = undestroyed s.system.destroyed (λ d. untouched_when_destroyed h i.reach d st) in
      by_destroyed t r once fresh i
    where
      undestroyed : (n : ℕ) → ¬ (0 < n) → n ≡ 0
      undestroyed n d = omega (arith, d)

  step-IsLifetime :
      {s t : Lifetime}
      → LifetimeStep build tid s t
      → IsLifetime build tid s
      → IsLifetime build tid t
  unfolding downgrade clone_weak drop_weak
  step-IsLifetime (strong st held) i = after_strong-IsLifetime i st
  step-IsLifetime {s} (downgrade_strong alive call) i =
      let fresh = alive-undestroyed i.reach alive in
      record {
        reach = i.reach;
        once = i.once;
        counted = ground (arith, i.counted, i.small);
        released = ground (arith, i.counted, i.released, i.small, fresh);
        small = ground (arith, i.small);
      }
  step-IsLifetime {s} (clone_of_weak alive call) i = record {
    reach = i.reach;
    once = i.once;
    counted = ground (arith, i.counted, i.small);
    released = ground (arith, i.counted, i.released, i.small);
    small = ground (arith, i.small);
  }
  step-IsLifetime {s} (drop_of_weak alive) i = record {
    reach = i.reach;
    once = i.once;
    counted = ground (arith, i.counted, i.small);
    released = ground (arith, i.counted, i.released, i.small);
    small = ground (arith, i.small);
  }

  pub Life-IsLifetime :
      {s : Lifetime} → Life build tid (newborn build tid) s → IsLifetime build tid s
  Life-IsLifetime start = record {
    reach = here;
    once = omega arith;
    counted = omega arith;
    released = refl;
    small = omega arith;
  }
  Life-IsLifetime (step life st) = step-IsLifetime st (Life-IsLifetime life)
