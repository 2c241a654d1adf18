-- ===== src/Application/Defined.antt =====
-- application/MatrixApplication.cpp, handleRequest: which messages are handled.
use matrixserver.Common.{ℕ, true, false, leb, ◌*◌, ◌≡◌, Option, some}
use matrixserver.Common.Int.{pos}
use matrixserver.Protocol.{ScreenInfo}
use matrixserver.Graphics.Screen.{max_int}
use matrixserver.Params.Store.{Params}
use matrixserver.Application.Life.{Application}

-- A panel whose sizes are not negative and whose number of pixels is an `int`.
abbrev pub IsSized : ScreenInfo → Type 0
IsSized i =
    (w : ℕ) × (h : ℕ) × (i.width ≡ pos w) × (i.height ≡ pos h) × (leb (w * h) max_int ≡ true)

Some : {A : Type 0} → Option A → Type 0
Some {A = A} o = (x : A) × (o ≡ some x)

-- `stop` waits for a thread that waits for an acknowledgement.
pub record IsStuck (a : Application) : Type 0 where
  pub thread : a.has_thread ≡ true
  pub waiting : a.waits ≡ true
  pub unacked : a.frame_acked ≡ false
