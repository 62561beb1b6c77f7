-- ===== src/Interrupt/Accounts.antt =====
-- The watch accounts for every send that it takes: it is answered, held by a redirect, or back in
-- the inbox. And it redirects only with notes that may interrupt the turn.
use onejudge.Common.{
  ◌≤◌, ℕ, zero, suc, ◌+◌, ◌≡◌, refl, ◌∙◌, subst, Bool, true, false, Option, none, some, List, [],
  ◌∷◌, ◌++◌, arith, Text, if◌then◌else◌, ◌>>=◌,
}
use onejudge.Note.{interrupted, Note, Party, DeliveredNote, Accepted}
use onejudge.Engine.Redirects.{Sent, Redirect}
use onejudge.Engine.Ledger.{one_if, held_one, held, Counts, Same}
use onejudge.Interrupt.{
  Line, Watching, claims, confirm, confirmed, present, poll, watch_from, await_socket, watched_from,
  run,
}

-- What the line does to the counts of the send `x`. A send that is released is taken no more.
pub record Steady {W : Type 0} (line : Line W) (c : Counts W) (x : ℕ) : Type 0 where
  pub on_ended : (w : W) → Same c w (line.ended w).1
  pub on_wait : (w : W) → Same c w (line.wait w).1
  pub on_socket : (w : W) → Same c w (line.socket_exists w).1
  pub on_take :
      (p : Note → Bool) (w : W)
      → (c.taken (line.take_if_within p w).1 ≡ c.taken w + held_one x (line.take_if_within p w).0)
        × (c.answered (line.take_if_within p w).1 ≡ c.answered w)
        × (c.dropped (line.take_if_within p w).1 ≡ c.dropped w)
  pub on_redirect : (input : Text) (w : W) → Same c w (line.send_redirect input w).1
  pub on_release :
      (s : Sent) (w : W)
      → one_if x s ≤ c.taken w
      → (c.taken (line.release s w) + one_if x s ≡ c.taken w)
        × (c.answered (line.release s w) ≡ c.answered w)
        × (c.dropped (line.release s w) ≡ c.dropped w)
  pub on_answer :
      (s : Sent) (a : Accepted) (w : W)
      → (c.taken (line.answer s a w) ≡ c.taken w)
        × (c.answered (line.answer s a w) ≡ c.answered w + one_if x s)
        × (c.dropped (line.answer s a w) ≡ c.dropped w)

held-append :
    (x : ℕ) (rs : List Redirect) (r : Redirect)
    → held x (rs ++ r ∷ []) ≡ held x rs + held_one x r.held
held-append x [] r = omega arith
held-append x (y ∷ rs) r = omega (arith, held-append x rs r)

module _ {W : Type 0} (line : Line W) (party : Party) (c : Counts W) (x : ℕ)
    (l : Steady line c x) where
  -- Since the state `w` the sends that were taken are answered or held by the redirects.
  abbrev pub Paid : W → List Redirect → W → Type 0
  Paid w rs w' =
      (c.taken w' + c.answered w ≡ c.taken w + c.answered w' + held x rs)
      × (c.dropped w' ≡ c.dropped w)
      × (c.answered w ≤ c.answered w')

  confirm-counts :
      (q : Party) (s : Sent) (w : W)
      → (c.taken (confirm line party q s w).1 ≡ c.taken w)
        × (c.answered (confirm line party q s w).1 + held_one x (confirm line party q s w).0
            ≡ c.answered w + one_if x s)
        × (c.dropped (confirm line party q s w).1 ≡ c.dropped w)
        × (c.answered w ≤ c.answered (confirm line party q s w).1)
  unfolding confirm
  confirm-counts Party.worker s w =
      let (t, a, k) = l.on_answer s (interrupted Party.worker) w in
      (t, omega (arith, a), k, omega (arith, a))
  confirm-counts Party.supervisor s w = (refl, refl, refl, omega arith)

  confirmed-Same : (input : Text) (w : W) → Same c w (confirmed line party input w).1
  unfolding confirmed
  confirmed-Same input w = sent (line.is_redirect_input input)
    where
      sent :
          (b : Bool)
          → (let y : Bool × W = if b then line.send_redirect input w else (false, w) in
              Same c w y.1)
      sent true = l.on_redirect input w
      sent false = (refl, refl, refl)

  present-Paid :
      (w0 : W) (k : Watching) (s : Sent) (w : W)
      → (c.taken w + c.answered w0 ≡ c.taken w0 + c.answered w + held x k.redirected + one_if x s)
      → c.dropped w ≡ c.dropped w0
      → c.answered w0 ≤ c.answered w
      → Paid w0 (present line party k s w).0.redirected (present line party k s w).1
  unfolding present
  present-Paid w0 k s w owed dropped grown =
      answered (confirmed line party input w) (confirmed-Same input w)
    where
      presented : List DeliveredNote
      presented = k.presented ++ record { note = s.message; delivered_to = party } ∷ []

      input : Text
      input = line.framing presented

      answered :
          (y : Bool × W)
          → Same c w y.1
          → (let z : Watching × W = elim y.0 [
            | false ↦
                (record k { passed_over = k.passed_over ++ s.message ∷ [] }, line.release s y.1)
            | true ↦
                let at = line.observed y.1 in
                let (held, w2) = confirm line party party s y.1 in
                (
                  record k {
                    presented = presented;
                    redirected =
                        k.redirected
                        ++ record {
                          note = s.message;
                          input = input;
                          held = held;
                          tools = at.tools;
                          texts = at.texts;
                        }
                          ∷ [];
                  },
                  w2,
                )
          ] in
              Paid w0 z.0.redirected z.1)
      answered (false, w1) (t, a, e) =
          let (t', a', e') = l.on_release s w1 (omega arith) in
          (omega (arith, t', a'), e' ∙ (e ∙ dropped), omega (arith, a'))
      answered (true, w1) (t, a, e) =
          let (t', a', e', g) = confirm-counts party s w1 in
          (
            omega (arith, t', a', held-append x k.redirected _),
            e' ∙ (e ∙ dropped),
            omega (arith, a, a', g),
          )

  poll-Paid :
      (w0 : W) (k : Watching) (w : W)
      → Paid w0 k.redirected w
      → Paid w0 (poll line party k w).0.redirected (poll line party k w).1
  unfolding poll
  poll-Paid w0 k w (paid, dropped, grown) =
      taken (line.take_if_within (claims line party k.passed_over) w)
        (l.on_take (claims line party k.passed_over) w)
    where
      taken :
          (y : Option Sent × W)
          → (c.taken y.1 ≡ c.taken w + held_one x y.0)
            × (c.answered y.1 ≡ c.answered w)
            × (c.dropped y.1 ≡ c.dropped w)
          → (let z : Watching × W = elim y.0 [
            | none ↦ (k, y.1)
            | some s ↦ present line party k s y.1
          ] in
              Paid w0 z.0.redirected z.1)
      taken (none, w1) (t, a, e) = (omega arith, e ∙ dropped, omega arith)
      taken (some s, w1) (t, a, e) =
          present-Paid w0 k s w1 (omega arith) (e ∙ dropped) (omega arith)

  abbrev PaidResult : W → Option (List Redirect × W) → Type 0
  PaidResult w none = Unit {0}
  PaidResult w (some (rs, w')) = Paid w rs w'

  watch_from-Paid :
      (w0 : W) (polls : ℕ) (k : Watching) (w : W)
      → Paid w0 k.redirected w
      → PaidResult w0 (watch_from line party polls k w)
  unfolding watch_from
  watch_from-Paid w0 zero k w paid = tt
  watch_from-Paid w0 (suc polls) k w (paid, dropped, grown) =
      let (t, a, e) = l.on_ended w in
      let now : Paid w0 k.redirected (line.ended w).1 =
        (omega (arith, t, a), e ∙ dropped, omega (arith, a)) in
      let polled = poll-Paid w0 k (line.ended w).1 now in
      ends (line.ended w).0 _ now (watch_from-Paid w0 polls _ _ polled)
    where
      ends :
          (over : Bool) (rest : Option (List Redirect × W))
          → Paid w0 k.redirected (line.ended w).1
          → PaidResult w0 rest
          → PaidResult w0 (if over then some (k.redirected, (line.ended w).1) else rest)
      ends true r now rest = now
      ends false r now rest = rest

  abbrev SameResult : W → Option (Bool × W) → Type 0
  SameResult w none = Unit {0}
  SameResult w (some y) = Same c w y.1

  await_socket-Same :
      (polls : ℕ) (w0 w : W) → Same c w0 w → SameResult w0 (await_socket line party polls w)
  unfolding await_socket
  await_socket-Same zero w0 w k = tt
  await_socket-Same (suc polls) w0 w (a0, a1, a2) =
      let (b0, b1, b2) = l.on_socket w in
      let found : Same c w0 (line.socket_exists w).1 = (b0 ∙ a0, b1 ∙ a1, b2 ∙ a2) in
      let (c0, c1, c2) = l.on_wait (line.socket_exists w).1 in
      let waited : Same c w0 (line.wait (line.socket_exists w).1).1 =
        (c0 ∙ (b0 ∙ a0), c1 ∙ (b1 ∙ a1), c2 ∙ (b2 ∙ a2)) in
      ends (line.socket_exists w).0 (line.wait (line.socket_exists w).1).0 _ found waited
        (await_socket-Same polls w0 _ waited)
    where
      ends :
          (exists over : Bool) (rest : Option (Bool × W))
          → Same c w0 (line.socket_exists w).1
          → Same c w0 (line.wait (line.socket_exists w).1).1
          → SameResult w0 rest
          → SameResult w0 (
              if exists
              then some (true, (line.socket_exists w).1)
              else if over
              then some (false, (line.wait (line.socket_exists w).1).1)
              else rest)
      ends true over rest f k r = f
      ends false true rest f k r = k
      ends false false rest f k r = r

  -- Where the line keeps account of a send, a watch that ends has answered the send as often as it
  -- took it from the inbox and did not give it back, or holds it in its redirects, and has dropped
  -- it never.
  pub run-Paid :
      (polls : ℕ) (w w' : W) (rs : List Redirect)
      → run line party polls w ≡ some (rs, w')
      → Paid w rs w'
  unfolding run
  run-Paid polls w w' rs e =
      ran (await_socket line party polls w) (await_socket-Same polls w w (refl, refl, refl)) e
    where
      looped : (y : Bool × W) → Same c w y.1 → PaidResult w (watched_from line party polls y)
      looped (false, w1) (t, a, k) = (omega (arith, t, a), k, omega (arith, a))
      looped (true, w1) (t, a, k) =
          watch_from-Paid w polls _ w1 (omega (arith, t, a), k, omega (arith, a))

      ran :
          (o : Option (Bool × W))
          → SameResult w o
          → (o >>= watched_from line party polls) ≡ some (rs, w')
          → Paid w rs w'
      ran none k e = absurd cc
      ran (some y) k e = subst (PaidResult w) e (looped y k)
