-- ===== src/Protocol/Lifetime.antt =====
-- An object with its weak references: when its memory is released. The calls on strong references are
-- those of `Protocol`; the destructor drops the weak reference that all strong ones share.
pub mod Kept
pub mod Release
use native.Mathlib.Decide.{dec_lt}
use mathlib.Core.Path.{subst}
use biasedrc_rs.Common.{
  ◌∙◌, ap, sym, ◌⊎◌, inl, inr, ℕ, suc, zero, ◌+◌, ◌-◌, ◌^◌, ◌<◌, ◌≡◌, refl, Bool, true, false, ◌&&◌,
  some, [], ◌==◌, if◌then◌else◌, arith,
}
use biasedrc_rs.Exec.{done}
use biasedrc_rs.Ids.{ShortThreadId, IsShortThreadId}
use biasedrc_rs.Words.Shared.{of_bool}
use biasedrc_rs.Header.{Build}
use biasedrc_rs.Brc.{BrcHeader, downgrade, clone_weak, drop_weak}
use biasedrc_rs.Protocol.{
  System, Step, upgrade, clone, drop, push, merge, allocated, Reach, here, next,
}
use biasedrc_rs.Protocol.Safety.{
  destroyed_last, untouched_when_destroyed, destroyed_or_waits, merge_returns,
}

-- `weaks` counts the weak references that are alive, `released` the releases of the memory.
pub record Lifetime : Type 0 where
  pub system : System
  pub weak_count : ℕ
  pub weaks : ℕ
  pub released : ℕ

abbrev pub header_of : Lifetime → BrcHeader
header_of s = record { strong = s.system.header; weak_count = s.weak_count }

abbrev pub is_upgrade :
    {build : Build} {tid : ShortThreadId} {s t : System} → Step build tid false s t → Bool
is_upgrade (upgrade fast consistent calm call) = true
is_upgrade (clone fast consistent alive calm call) = false
is_upgrade (drop fast consistent alive call) = false
is_upgrade (push announced) = false
is_upgrade (merge queued call) = false

abbrev pub after_drop_weak : Lifetime → ℕ → BrcHeader × Bool → Lifetime
after_drop_weak s weaks (h, last) = record s {
  weak_count = h.weak_count;
  weaks = weaks;
  released = s.released + of_bool last;
}

-- A call on a strong reference; the destructor ends with `BrcHeader::drop_weak`.
unfoldable pub after_strong : Lifetime → System → Lifetime
unfolding drop_weak
after_strong s t =
    let s' : Lifetime = record s { system = t } in
    if t.destroyed == s.system.destroyed
    then s'
    else after_drop_weak s' s.weaks (drop_weak (header_of s'))

-- `Brc.downgrade` needs a strong reference, and the calls of `Weak` a weak one.
pub data LifetimeStep (build : Build) (tid : ShortThreadId) (s : Lifetime) : Lifetime → Type 0 where
  strong :
      {t : System} (step : Step build tid false s.system t)
      → (is_upgrade step ≡ true → 0 < s.weaks)
      → LifetimeStep build tid s (after_strong s t)
  downgrade_strong :
      {h : BrcHeader}
      → 0 < s.system.handles
      → downgrade [] (header_of s) ≡ done (some h)
      → LifetimeStep build tid s (record s { weak_count = h.weak_count; weaks = s.weaks + 1 })
  clone_of_weak :
      {h : BrcHeader}
      → 0 < s.weaks
      → clone_weak (header_of s) ≡ done h
      → LifetimeStep build tid s (record s { weak_count = h.weak_count; weaks = s.weaks + 1 })
  drop_of_weak :
      0 < s.weaks
      → LifetimeStep build tid s (after_drop_weak s (s.weaks - 1) (drop_weak (header_of s)))

-- As `alloc_with_in` leaves it.
abbrev pub newborn : Build → ShortThreadId → Lifetime
newborn build tid = record { system = allocated build tid; weak_count = 1; weaks = 0; released = 0 }

pub data Life (build : Build) (tid : ShortThreadId) (s : Lifetime) : Lifetime → Type 0 where
  start : Life build tid s s
  step : {t u : Lifetime} → Life build tid s t → LifetimeStep build tid t u → Life build tid s u
