-- ===== src/Interrupt.antt =====
-- crates/onejudge/src/interrupt.rs: the watch over one live turn, which redirects the turn with the
-- notes that arrive for it. The inbox, the control socket and the turn itself are functions on a
-- state that they own. The watch runs on a thread of its own until the turn ends; the model gives
-- it a number of polls, and has no result where the turn outlives them.
pub mod Accounts
pub mod Claims
use onejudge.Common.{
  ℕ, zero, suc, ◌+◌, ◌-◌, ◌*◌, ◌/◌, ◌%◌, ◌^◌, ◌≤◌, ◌<◌, min, max, String, ◌≡◌, refl, sym, ap, ap₂,
  ◌∙◌, subst, ◌≡⟨◌⟩◌, ◌∎, fun_ext, ◌≢◌, ◌↔◌, ◌⊎◌, inl, inr, Bool, true, false, not, ◌&&◌, ◌||◌,
  Option, none, some, List, [], ◌∷◌, ◌++◌, map, append-nil, append_assoc, map-append, Memᴰ, Infix,
  Infix-refl, Infix-append_left, Infix-append_right, Infix-cons, arith, Text, codes, text_eq,
  is_whitespace, is_ascii_digit, is_ascii_alphanumeric, trim_start, trim_end, trim, split, join,
  starts_with, contains, show, text_eq_iff, text_eq_refl, length, take, drop, is_empty, get_last?,
  keep, any, all, find, length-append, keep-append, length-keep, length-take, length-drop,
  take-append-drop, filter_map, flat_map, length-map, All, All-append, ltb, leb, ◌==◌,
  if◌then◌else◌, ltb→lt, lt→ltb, leb→le, ==_iff, tests, Bool-cases, Option-cases, is_some, is_none,
  get_or_else, map_some, or_else, both_some, ◌>>=◌, is_control, split_once, strip_prefix, lines,
  true≢false, some_inj, >>=-some,
}
use onejudge.Platform.{Platform}
use onejudge.Note.{Note, Party, Addressee, Delivery, DeliveredNote, Accepted, interrupted}
use onejudge.Engine.{tool_event}
use onejudge.Engine.Redirects.{Sent, Redirect}

pub record Observed : Type 0 where
  pub tools : ℕ
  pub texts : List Text

-- `Watch::observe`
unfoldable pub observe : (d : Platform) → d.Action → Observed → Observed
observe d event o =
    if is_some (tool_event d event)
    then record o { tools = o.tools + 1 }
    else if text_eq (d.action_kind event) (codes "message")
    then (elim (d.action_output event) [
      | none ↦ o
      | some text ↦ if is_empty (trim text) then o else record o { texts = o.texts ++ text ∷ [] }
    ])
    else o

-- What the watch runs against: the end of the turn, as it is seen at a poll, the socket, the inbox
-- with the answer and the release of a send, the validation of a redirect's input, the redirect
-- itself, which oneharness confirms or not, and what has been observed of the turn.
pub record Line (W : Type 0) : Type 0 where
  pub ended : W → Bool × W
  pub wait : W → Bool × W
  pub socket_exists : W → Bool × W
  pub take_if_within : (Note → Bool) → W → Option Sent × W
  pub same_note : Note → Note → Bool
  pub framing : List DeliveredNote → Text
  pub is_redirect_input : Text → Bool
  pub send_redirect : Text → W → Bool × W
  pub release : Sent → W → W
  pub answer : Sent → Accepted → W → W
  pub observed : W → Observed

-- Whether a note may interrupt the party's turn.
unfoldable pub addresses : Party → Addressee → Bool
addresses Party.worker Addressee.worker = true
addresses Party.worker Addressee.both = true
addresses Party.worker Addressee.supervisor = false
addresses Party.supervisor Addressee.supervisor = true
addresses Party.supervisor Addressee.both = true
addresses Party.supervisor Addressee.worker = false

abbrev pub is_interrupt : Delivery → Bool
is_interrupt Delivery.interrupt = true
is_interrupt Delivery.turn_end = false

unfoldable pub interrupts : Party → Note → Bool
unfolding addresses
interrupts party note = addresses party note.addressee && is_interrupt note.delivery

-- The local variables of `run`.
pub record Watching : Type 0 where
  pub redirected : List Redirect
  pub presented : List DeliveredNote
  pub passed_over : List Note

abbrev pub nothing_yet : Watching
nothing_yet = record { redirected = []; presented = []; passed_over = [] }

module _ {W : Type 0} (line : Line W) (party : Party) where
  -- Whether the watch claims the note: it may interrupt and has not been passed over.
  unfoldable pub claims : List Note → Note → Bool
  unfolding interrupts
  claims passed_over note =
      interrupts party note && not (any (λ n. line.same_note n note) passed_over)

  -- The sender of a confirmed redirect: answered now for a worker's turn, held for a supervisor's.
  unfoldable pub confirm : Party → Sent → W → Option Sent × W
  confirm Party.worker s w = (none, line.answer s (interrupted Party.worker) w)
  confirm Party.supervisor s w = (some s, w)

  -- Whether oneharness confirms the redirect; input that is no redirect is not sent.
  unfoldable pub confirmed : Text → W → Bool × W
  confirmed input w =
      if line.is_redirect_input input then line.send_redirect input w else (false, w)

  -- What becomes of one claimed note.
  unfoldable pub present : Watching → Sent → W → Watching × W
  unfolding confirm confirmed
  present k s w =
      let presented = k.presented ++ record { note = s.message; delivered_to = party } ∷ [] in
      let input = line.framing presented in
      let (is_redirected, w1) = confirmed input w in
      elim is_redirected [
        | false ↦ (record k { passed_over = k.passed_over ++ s.message ∷ [] }, line.release s w1)
        | true ↦
            let at = line.observed w1 in
            let (held, w2) = confirm party s w1 in
            (
              record k {
                presented = presented;
                redirected =
                    k.redirected
                    ++ record {
                      note = s.message;
                      input = input;
                      held = held;
                      tools = at.tools;
                      texts = at.texts;
                    }
                      ∷ [];
              },
              w2,
            )
      ]

  -- One poll for a note.
  unfoldable pub poll : Watching → W → Watching × W
  unfolding present claims
  poll k w =
      let (taken, w1) = line.take_if_within (claims k.passed_over) w in
      elim taken [ none ↦ (k, w1) | some s ↦ present k s w1 ]

  -- The second loop of `run`, with the polls that are left.
  unfoldable pub watch_from : ℕ → Watching → W → Option (List Redirect × W)
  unfolding poll
  watch_from zero k w = none
  watch_from (suc polls) k w =
      let (over, w1) = line.ended w in
      let (k', w2) = poll k w1 in
      let rest = watch_from polls k' w2 in if over then some (k.redirected, w1) else rest

  -- The first loop: nothing is taken before the socket exists.
  unfoldable pub await_socket : ℕ → W → Option (Bool × W)
  await_socket zero w = none
  await_socket (suc polls) w =
      let (exists, w1) = line.socket_exists w in
      let (over, w2) = line.wait w1 in
      let rest = await_socket polls w2 in
      if exists then some (true, w1) else if over then some (false, w2) else rest

  abbrev pub watched_from : ℕ → Bool × W → Option (List Redirect × W)
  watched_from polls (false, w) = some ([], w)
  watched_from polls (true, w) = watch_from polls nothing_yet w

  -- `Watch::run`
  unfoldable pub run : ℕ → W → Option (List Redirect × W)
  unfolding await_socket watch_from
  run polls w = await_socket polls w >>= watched_from polls
