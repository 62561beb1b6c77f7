-- ===== src/Engine/Ledger.antt =====
-- The sends of the note inbox, and what becomes of each: which are taken out, which are answered,
-- and which are dropped without an answer.
pub mod Accounts
pub mod Pays
pub mod WorkerPays
pub mod SupervisorPays
pub mod LostPays
pub mod LoopPays
use onejudge.Common.{
  ℕ, zero, suc, ◌+◌, ◌-◌, ◌*◌, ◌/◌, ◌%◌, ◌^◌, ◌≤◌, ◌<◌, min, max, String, ◌≡◌, refl, sym, ap, ap₂,
  ◌∙◌, subst, ◌≡⟨◌⟩◌, ◌∎, fun_ext, ◌≢◌, ◌↔◌, ◌⊎◌, inl, inr, Bool, true, false, not, ◌&&◌, ◌||◌,
  Option, none, some, List, [], ◌∷◌, ◌++◌, map, append-nil, append_assoc, map-append, Memᴰ, Infix,
  Infix-refl, Infix-append_left, Infix-append_right, Infix-cons, arith, Text, codes, text_eq,
  is_whitespace, is_ascii_digit, is_ascii_alphanumeric, trim_start, trim_end, trim, split, join,
  starts_with, contains, show, text_eq_iff, text_eq_refl, length, take, drop, is_empty, get_last?,
  keep, any, all, find, length-append, keep-append, length-keep, length-take, length-drop,
  take-append-drop, filter_map, flat_map, length-map, All, All-append, ltb, leb, ◌==◌,
  if◌then◌else◌, ltb→lt, lt→ltb, leb→le, ==_iff, tests, Bool-cases, Option-cases, is_some, is_none,
  get_or_else, map_some, or_else, both_some, ◌>>=◌,
}
use onejudge.Platform.{Platform}
use onejudge.Note.{Party, Accepted}
use onejudge.Engine.{Observation}
use onejudge.Provider.{SkillRef, SupervisorQuery, EvidenceContext}
use onejudge.HistoryName.{HistoryScope}
use onejudge.Transcript.{Message}
use onejudge.Engine.Redirects.{Sent, Redirect}
use onejudge.Engine.Host.{Host, HarnessEvent, Callback}
use onejudge.Engine.Notes.{AwaitingDecision}

abbrev pub one_if : ℕ → Sent → ℕ
one_if x s = if s.id == x then 1 else 0

-- How often the send `x` is in a list, in the senders that redirects hold, and in those that wait.
abbrev pub count : ℕ → List Sent → ℕ
count x [] = 0
count x (s ∷ ss) = one_if x s + count x ss

abbrev pub held_one : ℕ → Option Sent → ℕ
held_one x none = 0
held_one x (some s) = one_if x s

abbrev pub held : ℕ → List Redirect → ℕ
held x [] = 0
held x (r ∷ rs) = held_one x r.held + held x rs

abbrev pub pending : ℕ → AwaitingDecision → ℕ
pending x [] = 0
pending x ((s, otherwise) ∷ rest) = one_if x s + pending x rest

-- How often the host's inbox was seen to hand out a send, and how often the send was answered and
-- dropped.
pub record Counts (W : Type 0) : Type 0 where
  pub taken : W → ℕ
  pub answered : W → ℕ
  pub dropped : W → ℕ

abbrev pub Same : {W : Type 0} → Counts W → W → W → Type 0
Same c w w' =
    (c.taken w' ≡ c.taken w) × (c.answered w' ≡ c.answered w) × (c.dropped w' ≡ c.dropped w)

-- What a callback does to the counts, and what a call that is handed one does: nothing, if the
-- callback does nothing.
abbrev pub Quiet : {E W : Type 0} → Counts W → Callback E W → Type 0
Quiet {E} {W} c f = (e : E) (w : W) (b : Bool) → Same c w (f e (w, b)).1.0

-- The counts keep account of the send `x`: only the inbox, an answer, a drop and a watch change
-- them. A watch takes sends from the inbox; it answers a worker's itself, and hands the senders of
-- the supervisor's redirects out, still unanswered.
pub record Ledger {d : Platform} {W : Type 0} (h : Host d W) (c : Counts W) (x : ℕ) : Type 0 where
  pub on_observe : (o : Observation d) (w : W) → Same c w (h.observe o w).1
  pub on_now : (w : W) → Same c w (h.now w).1
  pub on_drain :
      (w : W)
      → (c.taken (h.drain w).1 ≡ c.taken w + count x (h.drain w).0)
        × (c.answered (h.drain w).1 ≡ c.answered w)
        × (c.dropped (h.drain w).1 ≡ c.dropped w)
  pub on_answer :
      (s : Sent) (a : Accepted) (w : W)
      → (c.taken (h.answer s a w) ≡ c.taken w)
        × (c.answered (h.answer s a w) ≡ c.answered w + one_if x s)
        × (c.dropped (h.answer s a w) ≡ c.dropped w)
  pub on_drop :
      (s : Sent) (w : W)
      → (c.taken (h.drop_sent s w) ≡ c.taken w)
        × (c.answered (h.drop_sent s w) ≡ c.answered w)
        × (c.dropped (h.drop_sent s w) ≡ c.dropped w + one_if x s)
  pub on_watched :
      (party : Party) (session dir : Text) (w : W)
      → (c.taken (h.watched party session dir w).1 + c.answered w
          ≡ c.taken w
            + c.answered (h.watched party session dir w).1
            + held x (h.watched party session dir w).0)
        × (c.dropped (h.watched party session dir w).1 ≡ c.dropped w)
  pub on_worker_watched :
      (session dir : Text) (w : W) → held x (h.watched Party.worker session dir w).0 ≡ 0
  pub on_watch_action : (a : d.Action) (w : W) → Same c w (h.watch_action a w)
  pub on_reset : (w : W) → Same c w (h.reset_telemetry w)
  pub on_scope : (w : W) (s : Option HistoryScope) → Same c w (h.set_history_scope s w)
  pub on_judge_decisions : (w : W) → Same c w (h.take_judge_decisions w).1
  pub on_judge_tools : (w : W) → Same c w (h.take_judge_tools w).1
  pub on_respond :
      (skill : SkillRef) (ms : List (Message d)) (s : Option Text) (w : W)
      → Same c w (h.respond skill ms s w).1
  pub on_respond_with_history :
      (skill : SkillRef) (ms : List (Message d)) (s : Option Text) (f : Callback (HarnessEvent d) W)
      (w : W)
      → Quiet c f
      → Same c w (h.respond_with_history skill ms s f (w, false)).1.0
  pub on_supervise :
      (q : SupervisorQuery) (ms : List (Message d)) (s : Option Text) (ev : EvidenceContext) (w : W)
      → Same c w (h.supervise_with_evidence q ms s ev w).1
  pub on_supervise_observing :
      (q : SupervisorQuery) (ms : List (Message d)) (s : Option Text) (ev : EvidenceContext)
      (f : Callback d.Begun W) (w : W)
      → Quiet c f
      → Same c w (h.supervise_observing q ms s ev f (w, false)).1.0
