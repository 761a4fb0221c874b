-- ===== src/Protocol/Invariant/Defs.antt =====
-- The invariant of the system.
use biasedrc_rs.Common.{◌+◌, ◌≡◌, refl, some, false, ◌&&◌, ◌==◌, pos, arith}
use biasedrc_rs.Ids.{ShortThreadId, IsShortThreadId}
use biasedrc_rs.Words.Shared.{of_bool}
use biasedrc_rs.Header.{Build, init_header}
use biasedrc_rs.View.{View, refs, encode}
use biasedrc_rs.Protocol.Calls.{System, allocated}
use biasedrc_rs.Protocol.Invariant.Views.{is_waiting, IsShared}

-- The header stands for the references that are alive. It is in the queue, or on the way to it, once
-- while it waits for its merge, and its destructor has been called once when nothing is left.
pub record Inv (build : Build) (tid : ShortThreadId) (s : System) : Type 0 where
  pub view : View
  pub same : s.header ≡ encode build.int view
  pub shared : IsShared tid view
  pub counted : refs view ≡ pos s.handles
  pub waiting : s.announced + s.enqueued ≡ of_bool (is_waiting view)
  pub dropped : s.destroyed ≡ of_bool (view.merged && (s.handles == 0))

pub allocated-Inv :
    (build : Build) (tid : ShortThreadId)
    → IsShortThreadId tid
    → Inv build tid (allocated build tid)
unfolding init_header
allocated-Inv build tid h = record {
  view = record { owner = some tid; biased = 1; count = pos 0; merged = false; queued = false };
  same = refl;
  shared = record { valid = ground arith; owned = λ _. refl; negative = λ e. ground arith };
  counted = refl;
  waiting = refl;
  dropped = refl;
}
