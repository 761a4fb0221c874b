-- ===== src/Protocol/Lifetime/Release.antt =====
-- When the memory of an object is released, and that it is.
use native.Mathlib.Decide.{dec_lt}
use mathlib.Core.Path.{subst}
use biasedrc_rs.Common.{
  ◌∙◌, ap, sym, inl, inr, ℕ, suc, zero, ◌<◌, ◌≡◌, refl, Bool, true, false, ◌&&◌, ◌==◌,
  if◌then◌else◌, arith,
}
use biasedrc_rs.Ids.{ShortThreadId, IsShortThreadId}
use biasedrc_rs.Words.Shared.{of_bool}
use biasedrc_rs.Header.{Build}
use biasedrc_rs.Brc.{drop_weak}
use biasedrc_rs.Protocol.{System, Step, push, merge}
use biasedrc_rs.Protocol.Safety.{destroyed_or_waits, merge_returns}
use biasedrc_rs.Protocol.Lifetime.{
  Lifetime, header_of, is_upgrade, after_drop_weak, after_strong, strong, drop_of_weak, newborn,
  Life, start, step,
}
use biasedrc_rs.Protocol.Lifetime.Kept.{Life-IsLifetime}

after_strong-system : (s : Lifetime) (u : System) → u ≡ (after_strong s u).system
unfolding after_strong
after_strong-system s u =
    by_cases (u.destroyed == s.system.destroyed)
      (after_drop_weak (record s { system = u }) s.weaks
        (drop_weak (header_of (record s { system = u }))))
      refl
  where
    by_cases :
        (same : Bool) (s' : Lifetime)
        → u ≡ s'.system
        → u ≡ (if same then record s { system = u } else s').system
    by_cases true s' e = refl
    by_cases false s' e = e

module _ {build : Build} {tid : ShortThreadId} (h : IsShortThreadId tid) where
  module _ {s : Lifetime} (life : Life build tid (newborn build tid) s) where
    -- In the life of an object, without hasty clones, its memory is released at most once, and that has
    -- happened exactly when the destructor has been called and no weak reference is left.
    pub released_once : s.released ≡ of_bool ((s.system.destroyed == 1) && (s.weaks == 0))
    released_once = let i = Life-IsLifetime h life in ground (arith, i.counted, i.released, i.once)

  Life-append : {s t u : Lifetime} → Life build tid s t → Life build tid t u → Life build tid s u
  Life-append a start = a
  Life-append a (step b st) = step (Life-append a b) st

  drop_weaks :
      (n : ℕ) {s : Lifetime}
      → Life build tid (newborn build tid) s
      → s.weaks ≡ n
      → s.system.destroyed ≡ 1
      → (t : Lifetime) × Life build tid s t × (t.released ≡ 1)
  drop_weaks zero {s} life none_left gone = (s, start, ground (arith, released_once life))
  drop_weaks (suc n) {s} life some_left gone =
      let st = drop_of_weak (omega (arith, some_left)) in
      let (t, rest, last) = drop_weaks n (step life st) (omega (arith, some_left)) gone in
      (t, Life-append (step start st) rest, last)

  -- Once the destructor has been called, the weak references can be dropped.
  destroyed-released :
      {s : Lifetime}
      → Life build tid (newborn build tid) s
      → s.system.destroyed ≡ 1
      → (t : Lifetime) × Life build tid s t × (t.released ≡ 1)
  destroyed-released {s} life gone = drop_weaks s.weaks life refl gone

  -- A call of the protocol that is no upgrade, and what follows it.
  then_released :
      {s : Lifetime} {u : System}
      → Life build tid (newborn build tid) s
      → (st : Step build tid false s.system u) → is_upgrade st ≡ false
      → (Life build tid (newborn build tid) (after_strong s u)
          → u ≡ (after_strong s u).system
          → (t : Lifetime) × Life build tid (after_strong s u) t × (t.released ≡ 1))
      → (t : Lifetime) × Life build tid s t × (t.released ≡ 1)
  then_released {s} {u} life st plain later =
      let call = strong st (λ e. ground (arith, plain)) in
      let (t, rest, last) = later (step life call) (after_strong-system s u) in
      (t, Life-append (step start call) rest, last)

  merge-released :
      {s : Lifetime}
      → Life build tid (newborn build tid) s
      → 0 < s.system.enqueued
      → s.system.handles ≡ 0
      → s.system.destroyed ≡ 0
      → (t : Lifetime) × Life build tid s t × (t.released ≡ 1)
  merge-released {s} life queued none_left not_yet =
      let r = (Life-IsLifetime h life).reach in
      let (m, call, last) = merge_returns h r queued (omega (arith, none_left)) in
      then_released life (merge queued call) refl
        (λ life' e. destroyed-released life' (ap (λ v. v.destroyed) (sym e) ∙ ground (arith, last)))

  -- In the life of an object, without hasty clones, from each state without strong references some calls
  -- lead to a state in which the memory has been released.
  pub released_in_the_end :
      {s : Lifetime}
      → Life build tid (newborn build tid) s
      → s.system.handles ≡ 0
      → (t : Lifetime) × Life build tid s t × (t.released ≡ 1)
  released_in_the_end {s} life none_left =
      let r = (Life-IsLifetime h life).reach in
      elim (destroyed_or_waits h r none_left) [
        | inl gone ↦ destroyed-released life gone
        | inr (not_yet, one) ↦ elim (dec_lt 0 s.system.announced) [
          | yes announced ↦ then_released life (push announced) refl (λ life' e.
              merge-released life' (subst (λ v. 0 < v.enqueued) e (omega arith))
                (ap (λ v. v.handles) (sym e) ∙ none_left) (ap (λ v. v.destroyed) (sym e) ∙ not_yet))
          | no unannounced ↦ merge-released life (omega (arith, one, unannounced)) none_left not_yet
        ]
      ]
