-- ===== src/Engine/Ledger/Accounts.antt =====
-- Counting the senders that wait for the supervisor's decision.
use onejudge.Common.{ℕ, ◌+◌, ◌≡◌, refl, Option, none, some, List, [], ◌∷◌, ◌++◌, map, arith}
use onejudge.Note.{Party, interrupted, at_turn_end}
use onejudge.Engine.Redirects.{Sent, Redirect}
use onejudge.Engine.Notes.{AwaitingDecision, redirected, arrived_at_turn_end}
use onejudge.Engine.Ledger.{count, held, held_one, pending}

pending-append : (x : ℕ) (a b : AwaitingDecision) → pending x (a ++ b) ≡ pending x a + pending x b
pending-append x [] b = omega arith
pending-append x ((s, otherwise) ∷ a) b = omega (arith, pending-append x a b)

pending_arrived :
    (x : ℕ) (ss : List Sent)
    → pending x (map (λ (s : Sent). (s, at_turn_end Party.supervisor)) ss) ≡ count x ss
pending_arrived x [] = refl
pending_arrived x (s ∷ ss) = omega (arith, pending_arrived x ss)

pub pending-arrived_at_turn_end :
    (x : ℕ) (a : AwaitingDecision) (ss : List Sent)
    → pending x (arrived_at_turn_end a ss) ≡ pending x a + count x ss
unfolding arrived_at_turn_end
pending-arrived_at_turn_end x a ss =
    omega (arith, pending-append x a (map _ ss), pending_arrived x ss)

pub pending-redirected :
    (x : ℕ) (a : AwaitingDecision) (rs : List Redirect)
    → pending x (redirected a rs) ≡ pending x a + held x rs
unfolding redirected
pending-redirected x a [] = omega arith
pending-redirected x a (r ∷ rs) = by_held r.held (λ b. pending-redirected x b rs)
  where
    by_held :
        (o : Option Sent)
        → ((b : AwaitingDecision) → pending x (redirected b rs) ≡ pending x b + held x rs)
        → pending x (
            redirected
              (elim o [ none ↦ a | some s ↦ a ++ (s, interrupted Party.supervisor) ∷ [] ])
              rs)
          ≡ pending x a + (held_one x o + held x rs)
    by_held none k = omega (arith, k a)
    by_held (some s) k =
        let b : AwaitingDecision = (s, interrupted Party.supervisor) ∷ [] in
        omega (arith, k (a ++ b), pending-append x a b)
