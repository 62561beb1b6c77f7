-- ===== src/Interrupt/Claims.antt =====
-- The notes that a watch redirects the turn with.
use onejudge.Common.{
  ℕ, zero, suc, ◌≡◌, refl, subst, Bool, true, false, Option, none, some, List, [], ◌∷◌, ◌++◌, Text,
  All, All-append, if◌then◌else◌, tests, ◌>>=◌,
}
use onejudge.Note.{Note, Party, DeliveredNote}
use onejudge.Engine.Redirects.{Sent, Redirect}
use onejudge.Interrupt.{
  Line, Watching, interrupts, claims, confirm, confirmed, present, poll, watch_from, await_socket,
  nothing_yet, watched_from, run,
}

-- Whose sender waits: none's for a worker's turn, and the note's own for a supervisor's.
abbrev pub Waits : Party → Note → Option Sent → Type 0
Waits Party.worker note o = o ≡ none
Waits Party.supervisor note o = (s : Sent) × ((o ≡ some s) × (s.message ≡ note))

module _ {W : Type 0} (line : Line W) (party : Party) where
  -- A redirect with a note that may interrupt the party's turn, and whose input is a redirect's.
  abbrev pub Fit : Redirect → Type 0
  Fit r =
      (interrupts party r.note ≡ true)
      × ((line.is_redirect_input r.input ≡ true) × Waits party r.note r.held)

  confirm-Waits : (q : Party) (s : Sent) (w : W) → Waits q s.message (confirm line party q s w).0
  unfolding confirm
  confirm-Waits Party.worker s w = refl
  confirm-Waits Party.supervisor s w = (s, (refl, refl))

  confirmed-is_redirect_input :
      (input : Text) (w : W)
      → (confirmed line party input w).0 ≡ true
      → line.is_redirect_input input ≡ true
  unfolding confirmed
  confirmed-is_redirect_input input w e = sent (line.is_redirect_input input) e
    where
      sent :
          (b : Bool)
          → (let y : Bool × W = if b then line.send_redirect input w else (false, w) in
              y.0 ≡ true → b ≡ true)
      sent true e = refl
      sent false e = e

  present-Fit :
      (k : Watching) (s : Sent) (w : W)
      → interrupts party s.message ≡ true
      → All Fit k.redirected
      → All Fit (present line party k s w).0.redirected
  unfolding present
  present-Fit k s w may fit =
      answered (confirmed line party input w) (confirmed-is_redirect_input input w)
    where
      presented : List DeliveredNote
      presented = k.presented ++ record { note = s.message; delivered_to = party } ∷ []

      input : Text
      input = line.framing presented

      answered :
          (y : Bool × W)
          → (y.0 ≡ true → line.is_redirect_input input ≡ true)
          → (let z : Watching × W = elim y.0 [
            | false ↦
                (record k { passed_over = k.passed_over ++ s.message ∷ [] }, line.release s y.1)
            | true ↦
                let at = line.observed y.1 in
                let (held, w2) = confirm line party party s y.1 in
                (
                  record k {
                    presented = presented;
                    redirected =
                        k.redirected
                        ++ record {
                          note = s.message;
                          input = input;
                          held = held;
                          tools = at.tools;
                          texts = at.texts;
                        }
                          ∷ [];
                  },
                  w2,
                )
          ] in
              All Fit z.0.redirected)
      answered (false, w1) valid = fit
      answered (true, w1) valid =
          All-append Fit k.redirected _ fit ((may, (valid refl, confirm-Waits party s w1)), tt)

  -- The inbox hands out only notes that were asked for.
  module _
      (asked : (p : Note → Bool) (w : W) (s : Sent)
        → (line.take_if_within p w).0 ≡ some s
        → p s.message ≡ true) where
    poll-Fit :
        (k : Watching) (w : W) → All Fit k.redirected → All Fit (poll line party k w).0.redirected
    unfolding poll claims
    poll-Fit k w fit =
        taken (line.take_if_within (claims line party k.passed_over) w)
          (asked (claims line party k.passed_over) w)
      where
        taken :
            (y : Option Sent × W)
            → ((s : Sent) → y.0 ≡ some s → claims line party k.passed_over s.message ≡ true)
            → (let z : Watching × W = elim y.0 [
              | none ↦ (k, y.1)
              | some s ↦ present line party k s y.1
            ] in
                All Fit z.0.redirected)
        taken (none, w1) claimed = fit
        taken (some s, w1) claimed =
            let both = claimed s refl in present-Fit k s w1 (grind (tests, both)) fit

    abbrev FitResult : Option (List Redirect × W) → Type 0
    FitResult none = Unit {0}
    FitResult (some (rs, w)) = All Fit rs

    watch_from-Fit :
        (polls : ℕ) (k : Watching) (w : W)
        → All Fit k.redirected
        → FitResult (watch_from line party polls k w)
    unfolding watch_from
    watch_from-Fit zero k w fit = tt
    watch_from-Fit (suc polls) k w fit =
        ends (line.ended w).0 _ (watch_from-Fit polls _ _ (poll-Fit k (line.ended w).1 fit))
      where
        ends :
            (over : Bool) (rest : Option (List Redirect × W))
            → FitResult rest
            → FitResult (if over then some (k.redirected, (line.ended w).1) else rest)
        ends true rest r = fit
        ends false rest r = r

    -- Where the inbox hands out only notes that were asked for, a watch redirects a turn only with
    -- notes to its party, or to both, that ask to interrupt, and only with input that is a
    -- redirect's. A worker's redirect holds no sender; a supervisor's holds the note's own.
    pub run-Fit :
        (polls : ℕ) (w w' : W) (rs : List Redirect)
        → run line party polls w ≡ some (rs, w')
        → All Fit rs
    unfolding run
    run-Fit polls w w' rs e = ran (await_socket line party polls w) e
      where
        ran :
            (o : Option (Bool × W))
            → (o >>= watched_from line party polls) ≡ some (rs, w')
            → All Fit rs
        ran none e = absurd cc
        ran (some (false, w1)) e = subst FitResult e tt
        ran (some (true, w1)) e = subst FitResult e (watch_from-Fit polls nothing_yet w1 tt)
