-- ===== src/Engine/Monad.antt =====
-- The state of a run, and steps that go on with a value or end the run.
use onejudge.Common.{Bool, true, false, Option, List, Text}
use onejudge.Platform.{Platform}
use onejudge.Usage.{Usage}
use onejudge.Error.{Error}
use onejudge.Transcript.{Transcript}
use onejudge.Note.{DeliveredNote}
use onejudge.Report.{JudgedTurn}
use onejudge.Engine.Noop.{NoopStreak}

-- The local variables of `drive` that live across turns, the engine's cells, and the host's state.
pub record Run (d : Platform) (W : Type 0) : Type 0 where
  pub world : W
  pub transcript : Transcript d
  pub totals : Usage d
  pub noop : NoopStreak
  pub for_worker : List DeliveredNote
  pub delivered : List DeliveredNote
  pub judged : List (JudgedTurn d)

-- How `drive` returns: stopped by the observer, the end of the loop with its completion and
-- settled reasons, an error, a panic, or more rounds than the model's fuel.
pub data Exit : Type 0 where
  stopped : Exit
  ended : Option Text → Option Text → Exit
  failed : Error → Exit
  panicked : Exit
  out_of_fuel : Exit

pub data Reply (d : Platform) (W : Type 0) (A : Type 0) : Type 0 where
  next : A → Run d W → Reply d W A
  exit : Exit → Run d W → Reply d W A

abbrev pub M : Platform → Type 0 → Type 0 → Type 0
M d W A = Run d W → Reply d W A

-- What follows a reply.
abbrev pub and_next : {d : Platform} {W A B : Type 0} → Reply d W A → (A → M d W B) → Reply d W B
and_next (next a r) f = f a r
and_next (exit e r) f = exit e r

infixl 5 ◌>>=◌ ◌>>◌
abbrev pub ◌>>=◌ : {d : Platform} {W A B : Type 0} → M d W A → (A → M d W B) → M d W B
◌>>=◌ m f r = and_next (m r) f

abbrev pub ◌>>◌ : {d : Platform} {W B : Type 0} → M d W (Unit {0}) → M d W B → M d W B
◌>>◌ m k r = and_next (m r) (λ _. k)

abbrev pub pure : {d : Platform} {W A : Type 0} → A → M d W A
pure a r = next a r

abbrev pub leave : {d : Platform} {W A : Type 0} → Exit → M d W A
leave e r = exit e r

unfoldable pub get_run : {d : Platform} {W : Type 0} → M d W (Run d W)
get_run r = next r r

-- A step of the host alone.
unfoldable pub on_world : {d : Platform} {W A : Type 0} → (W → A × W) → M d W A
on_world f r = next (f r.world).0 (record r { world = (f r.world).1 })

unfoldable pub change_world : {d : Platform} {W : Type 0} → (W → W) → M d W (Unit {0})
change_world f r = next tt (record r { world = f r.world })

-- `return Ok(self.finish(.., true, None, None))` where the observer broke.
unfoldable pub stop_if : {d : Platform} {W : Type 0} → Bool → M d W (Unit {0})
stop_if true r = exit stopped r
stop_if false r = next tt r
